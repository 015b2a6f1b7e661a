-- ===== src/Writer/Handshake.antt =====
-- An offer or a request that the peer agrees to is settled without another message.
use telnetlib.Prelude.{
  ℕ, true, false, [], ◌∷◌, ◌≡◌, ◌≢◌, refl, arith, Bytes, nat_eq, bytes_eq, elem, Bool-cases, inl,
  inr,
}
use telnetlib.Telopt.{
  cmd_iac, cmd_do, cmd_dont, cmd_will, opt_binary, opt_sga, opt_eor, opt_echo, opt_mccp2_compress,
  opt_mccp3_compress, opt_naws, opt_tm, opt_logout, opt_linemode, opt_sndloc,
}
use telnetlib.Dict
use telnetlib.Exec.{ok, ◌>>=◌}
use telnetlib.Host.{Host}
use telnetlib.Session.{Session, Act, enabled, local_enabled, remote_enabled, pending_enabled}
use telnetlib.Session.Iac.{iac, IsNegotiation-do, IsNegotiation-will}
use telnetlib.Negotiate.{
  handle_do, do_known, do_follow_up, unless_local, handle_will, will_known, will_follow_up,
  accept_will, will_options, client_options, do_options, mud_protocol_options,
}
use telnetlib.Interp.{Interp, settle, do_byte, will_byte, feed_all}
use telnetlib.Interp.Stream.{IsIdle}
use telnetlib.Interp.Commands.{feed_all_negotiation}
use telnetlib.Writer.{telnet_writer}

-- Options that need no more than the agreement.
abbrev pub plain_options : Bytes
plain_options = opt_binary ∷ opt_sga ∷ opt_eor ∷ []

-- A request that is pending is not made again, and changes nothing.
iac_pending :
    (cmd opt : ℕ) (s : Session)
    → elem cmd (cmd_do ∷ cmd_will ∷ []) ≡ true
    → (cmd ≡ cmd_do → remote_enabled s opt ≡ false)
    → pending_enabled s cmd opt ≡ true
    → iac cmd opt s ≡ (ok false, s)
unfolding iac ◌>>=◌ elem
iac_pending cmd opt s req off waiting = ground arith

unless_local-pending :
    (opt : ℕ) (s : Session)
    → pending_enabled s cmd_will opt ≡ true
    → unless_local cmd_will opt s ≡ (ok tt, s)
unfolding unless_local ◌>>=◌ elem
unless_local-pending opt s waiting =
    ground (arith, iac_pending cmd_will opt s refl (λ e. absurd (omega (arith, e))) waiting)

plain_facts :
    (opt : ℕ)
    → elem opt plain_options ≡ true
    → (opt ≢ opt_echo)
      × (opt ≢ opt_tm)
      × (opt ≢ opt_logout)
      × (elem opt client_options ≡ false)
      × (elem opt do_options ≡ true)
      × (elem opt mud_protocol_options ≡ false)
      × (elem opt (opt_mccp2_compress ∷ opt_mccp3_compress ∷ []) ≡ false)
unfolding elem
plain_facts opt h = ground arith

do_follow_up-plain :
    (host : Host) (opt : ℕ) (s : Session)
    → elem opt plain_options ≡ true
    → do_follow_up host opt s ≡ (ok tt, s)
unfolding do_follow_up ◌>>=◌ elem
do_follow_up-plain host opt s plain = ground arith

will_follow_up-plain :
    (opt : ℕ) (s : Session) → elem opt plain_options ≡ true → will_follow_up opt s ≡ (ok tt, s)
unfolding will_follow_up ◌>>=◌ elem
will_follow_up-plain opt s plain = ground arith

settle_both :
    (opt : ℕ) (s : Session)
    → let t = settle cmd_dont opt (settle cmd_do opt s) in
      (t.sent ≡ s.sent)
      × (t.remote_option ≡ s.remote_option)
      × (pending_enabled t cmd_do opt ≡ false)
unfolding enabled
settle_both opt s =
    let done = Dict.get-put s.pending_option (cmd_do ∷ opt ∷ []) (cmd_do ∷ opt ∷ []) false in
    let twice =
      Dict.get-put (settle cmd_do opt s).pending_option (cmd_dont ∷ opt ∷ []) (cmd_do ∷ opt ∷ [])
        false in
    (ground arith, ground arith, ground (arith, done, twice))

byte_only : (opt : ℕ) → elem opt plain_options ≡ true → opt ≢ cmd_iac
unfolding elem
byte_only opt h = ground arith

will_facts :
    (opt : ℕ)
    → elem opt plain_options ≡ true
    → (opt ≢ opt_echo)
      × (elem opt will_options ≡ true)
      × (elem opt (opt_naws ∷ opt_linemode ∷ opt_sndloc ∷ []) ≡ false)
unfolding elem
will_facts opt h = ground arith

accept_will-pending :
    (opt : ℕ) (s : Session)
    → pending_enabled s cmd_do opt ≡ true
    → ((accept_will opt s).0 ≡ ok tt)
      × ((accept_will opt s).1.sent ≡ s.sent)
      × (remote_enabled (accept_will opt s).1 opt ≡ true)
      × ((accept_will opt s).1.pending_option ≡ s.pending_option)
unfolding accept_will ◌>>=◌ elem enabled
accept_will-pending opt s waiting = elim (Bool-cases (remote_enabled s opt)) [
  | inl on ↦ (ground arith, ground arith, ground arith, ground arith)
  | inr off ↦
      let same = iac_pending cmd_do opt s refl (λ e. off) waiting in
      (
        ground (arith, same),
        ground (arith, same),
        ground (arith, same, Dict.get-put s.remote_option (opt ∷ []) (opt ∷ []) true),
        ground (arith, same),
      )
]

module _ (host : Host) (mud : ℕ → Bytes → Act (Unit {0})) where
  handle_do-pending :
      (opt : ℕ) (s : Session)
      → elem opt plain_options ≡ true
      → elem opt s.always_wont ≡ false
      → pending_enabled s cmd_will opt ≡ true
      → handle_do host opt s ≡ (ok true, s)
  unfolding handle_do do_known ◌>>=◌
  handle_do-pending opt s plain free waiting =
      let (n1, n2, n3, n4, n5, n6, n7) = plain_facts opt plain in
      ground (arith, unless_local-pending opt s waiting, do_follow_up-plain host opt s plain)

  do_settles :
      (opt : ℕ) (s : Session)
      → elem opt plain_options ≡ true
      → elem opt s.always_wont ≡ false
      → pending_enabled s cmd_will opt ≡ true
      → ((do_byte (telnet_writer host mud) opt s).1.sent ≡ s.sent)
        × (local_enabled (do_byte (telnet_writer host mud) opt s).1 opt ≡ true)
        × (pending_enabled (do_byte (telnet_writer host mud) opt s).1 cmd_will opt ≡ false)
  unfolding do_byte ◌>>=◌ enabled
  do_settles opt s plain free waiting =
      let same = handle_do-pending opt s plain free waiting in
      (
        ground (arith, same),
        ground (arith, same, Dict.get-put s.local_option (opt ∷ []) (opt ∷ []) true),
        ground (
          arith,
          same,
          Dict.get-put s.pending_option (cmd_will ∷ opt ∷ []) (cmd_will ∷ opt ∷ []) false,
        ),
      )

  handle_will-pending :
      (opt : ℕ) (s : Session)
      → elem opt plain_options ≡ true
      → elem opt s.always_dont ≡ false
      → pending_enabled s cmd_do opt ≡ true
      → handle_will host opt s ≡ accept_will opt s
  unfolding handle_will will_known ◌>>=◌
  handle_will-pending opt s plain free waiting =
      let (n1, n2, n3) = will_facts opt plain in
      let (m1, m2, m3, m4, m5, m6, m7) = plain_facts opt plain in
      let (r, sent, on, kept) = accept_will-pending opt s waiting in
      ground (arith, r, will_follow_up-plain opt (accept_will opt s).1 plain)

  will_settles :
      (opt : ℕ) (s : Session)
      → elem opt plain_options ≡ true
      → elem opt s.always_dont ≡ false
      → pending_enabled s cmd_do opt ≡ true
      → ((will_byte (telnet_writer host mud) opt s).1.sent ≡ s.sent)
        × (remote_enabled (will_byte (telnet_writer host mud) opt s).1 opt ≡ true)
        × (pending_enabled (will_byte (telnet_writer host mud) opt s).1 cmd_do opt ≡ false)
  unfolding will_byte ◌>>=◌
  will_settles opt s plain free waiting =
      let (r, sent, on, kept) = accept_will-pending opt s waiting in
      let (same, remote, done) = settle_both opt (handle_will host opt s).1 in
      let agreed = handle_will-pending opt s plain free waiting in
      (ground (arith, same, agreed, sent), ground (arith, remote, agreed, on), done)

  -- An offer of BINARY, SGA or EOR that is pending is settled by the peer's DO, read between two
  -- commands: the writer, which is not told to refuse the option always, writes nothing more, the
  -- option is on at our side, and no offer is pending.
  pub offer_settles :
      (opt : ℕ) (i : Interp)
      → elem opt plain_options ≡ true
      → elem opt i.session.always_wont ≡ false
      → pending_enabled i.session cmd_will opt ≡ true
      → IsIdle i
      → let after = (feed_all (telnet_writer host mud) (cmd_iac ∷ cmd_do ∷ opt ∷ []) i).1.session in
        (after.sent ≡ i.session.sent)
        × (local_enabled after opt ≡ true)
        × (pending_enabled after cmd_will opt ≡ false)
  offer_settles opt i plain free waiting idle =
      let (n1, n2, n3, done) =
        feed_all_negotiation (telnet_writer host mud) cmd_do opt i IsNegotiation-do
          (byte_only opt plain) idle in
      rw done (do_settles opt i.session plain free waiting)

  -- A request of BINARY, SGA or EOR that is pending is settled by the peer's WILL, read between two
  -- commands: the writer, which is not told to refuse the option always, writes nothing more, the
  -- option is on at the peer's side, and no request is pending.
  pub request_settles :
      (opt : ℕ) (i : Interp)
      → elem opt plain_options ≡ true
      → elem opt i.session.always_dont ≡ false
      → pending_enabled i.session cmd_do opt ≡ true
      → IsIdle i
      → let after =
          (feed_all (telnet_writer host mud) (cmd_iac ∷ cmd_will ∷ opt ∷ []) i).1.session in
        (after.sent ≡ i.session.sent)
        × (remote_enabled after opt ≡ true)
        × (pending_enabled after cmd_do opt ≡ false)
  request_settles opt i plain free waiting idle =
      let (n1, n2, n3, done) =
        feed_all_negotiation (telnet_writer host mud) cmd_will opt i IsNegotiation-will
          (byte_only opt plain) idle in
      rw done (will_settles opt i.session plain free waiting)
