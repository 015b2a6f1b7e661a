-- ===== src/Writer/Refusal.antt =====
-- An option that a server refuses to perform is recorded as on.
use telnetlib.Prelude.{
  ℕ, true, false, [], ◌∷◌, ◌++◌, ◌≡◌, ◌≢◌, arith, Bytes, nat_eq, bytes_eq, elem,
}
use telnetlib.Telopt.{cmd_iac, cmd_do, cmd_wont}
use telnetlib.Dict
use telnetlib.Exec.{◌>>=◌}
use telnetlib.Host.{Host}
use telnetlib.Session.{Session, Act, enabled, local_enabled}
use telnetlib.Session.Iac.{IsNegotiation-do}
use telnetlib.Negotiate.{handle_do, client_options}
use telnetlib.Negotiate.Replies.{client_option_refused}
use telnetlib.Interp.{Interp, do_byte, feed_all}
use telnetlib.Interp.Stream.{IsIdle}
use telnetlib.Interp.Commands.{feed_all_negotiation}
use telnetlib.Writer.{telnet_writer}

byte_only : (opt : ℕ) → elem opt client_options ≡ true → opt ≢ cmd_iac
unfolding elem
byte_only opt h = ground arith

module _ (host : Host) (mud : ℕ → Bytes → Act (Unit {0})) where
  do_records :
      (opt : ℕ) (s : Session)
      → s.server ≡ true
      → s.closing ≡ false
      → elem opt client_options ≡ true
      → elem opt s.always_wont ≡ false
      → ((do_byte (telnet_writer host mud) opt s).1.sent
          ≡ s.sent ++ (cmd_iac ∷ cmd_wont ∷ opt ∷ []))
        × (local_enabled (do_byte (telnet_writer host mud) opt s).1 opt ≡ true)
  unfolding do_byte ◌>>=◌ enabled
  do_records opt s server conn known free =
      let (r, sent) = client_option_refused host opt s server conn known free in
      (
        ground (arith, r, sent),
        ground (
          arith,
          r,
          Dict.get-put (handle_do host opt s).1.local_option (opt ∷ []) (opt ∷ []) true,
        ),
      )

  -- A server that reads, between two commands, DO for an option that only a client performs, and
  -- that it is not told to refuse always, writes WONT on an open connection, and then has the
  -- option as on at its own side.
  pub refused_option_on :
      (opt : ℕ) (i : Interp)
      → i.session.server ≡ true
      → i.session.closing ≡ false
      → elem opt client_options ≡ true
      → elem opt i.session.always_wont ≡ false
      → IsIdle i
      → let after = (feed_all (telnet_writer host mud) (cmd_iac ∷ cmd_do ∷ opt ∷ []) i).1.session in
        (after.sent ≡ i.session.sent ++ (cmd_iac ∷ cmd_wont ∷ opt ∷ []))
        × (local_enabled after opt ≡ true)
  refused_option_on opt i server conn known free idle =
      let (n1, n2, n3, done) =
        feed_all_negotiation (telnet_writer host mud) cmd_do opt i IsNegotiation-do
          (byte_only opt known) idle in
      rw done (do_records opt i.session server conn known free)
