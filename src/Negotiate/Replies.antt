-- ===== src/Negotiate/Replies.antt =====
-- What the negotiation handlers answer.
use telnetlib.Prelude.{
  ℕ, true, false, [], ◌∷◌, ◌++◌, ◌≡◌, ◌≢◌, arith, Bytes, nat_eq, bytes_eq, elem, append-nil,
  if◌then◌else◌,
}
use telnetlib.Telopt.{cmd_iac, cmd_dont, cmd_wont, opt_tm, opt_logout, opt_echo, opt_status}
use telnetlib.Exec.{ok, ◌>>=◌}
use telnetlib.Host.{Host}
use telnetlib.Session.{Session, local_enabled, remote_enabled}
use telnetlib.Session.Iac.{
  iac, iac_exact, iac_refusal, refused, IsNegotiation-dont, IsNegotiation-wont,
}
use telnetlib.Negotiate.{
  handle_logout, unless_local, do_known, handle_do, handle_dont, handle_will, handle_wont,
  client_options, do_options, mud_protocol_options, will_options, reported_options,
}

-- DONT and WONT are never answered, for any option: nothing is written.
pub refusals_silent :
    (opt : ℕ) (s : Session)
    → ((handle_dont opt s).1.sent ≡ s.sent) × ((handle_wont opt s).1.sent ≡ s.sent)
unfolding handle_dont handle_wont handle_logout ◌>>=◌
refusals_silent opt s = (ground arith, ground arith)

elem-add : (x : ℕ) (xs : Bytes) → elem x (if elem x xs then xs else x ∷ xs) ≡ true
unfolding elem
elem-add x xs = ground arith

iac-rejected_do : (cmd opt : ℕ) (s : Session) → (iac cmd opt s).1.rejected_do ≡ s.rejected_do
unfolding iac ◌>>=◌
iac-rejected_do cmd opt s = ground arith

unless_local-wont :
    (opt : ℕ) (s : Session)
    → s.closing ≡ false
    → ((unless_local cmd_wont opt s).0 ≡ ok tt)
      × ((unless_local cmd_wont opt s).1.sent
          ≡ s.sent ++ (if local_enabled s opt then [] else cmd_iac ∷ cmd_wont ∷ opt ∷ []))
      × ((unless_local cmd_wont opt s).1.rejected_do ≡ s.rejected_do)
unfolding unless_local ◌>>=◌
unless_local-wont opt s conn =
    let (r, sent) = iac_exact cmd_wont opt s IsNegotiation-wont conn in
    (
      ground (arith, append-nil s.sent, r),
      ground (arith, append-nil s.sent, r, sent),
      ground (arith, r, iac-rejected_do cmd_wont opt s),
    )

unknown_do :
    (opt : ℕ)
    → elem opt (opt_tm ∷ opt_logout ∷ client_options ++ do_options) ≡ false
    → (opt ≢ opt_echo)
      × (opt ≢ opt_tm)
      × (opt ≢ opt_logout)
      × (elem opt client_options ≡ false)
      × (elem opt do_options ≡ false)
unfolding elem
unknown_do opt h = ground arith

unknown_will :
    (opt : ℕ)
    → elem opt (opt_tm ∷ opt_logout ∷ opt_status ∷ will_options ++ reported_options) ≡ false
    → (opt ≢ opt_tm)
      × (opt ≢ opt_logout)
      × (opt ≢ opt_status)
      × (elem opt will_options ≡ false)
      × (elem opt reported_options ≡ false)
unfolding elem
unknown_will opt h = ground arith

mud_known :
    (opt : ℕ)
    → elem opt mud_protocol_options ≡ true
    → (opt ≢ opt_echo) × (opt ≢ opt_tm) × (opt ≢ opt_logout) × (elem opt do_options ≡ true)
unfolding elem
mud_known opt h = ground arith

module _ (host : Host) where
  -- A server on an open connection that is asked to perform an option that only a client performs,
  -- and that it is not told to refuse always, writes WONT, and yet returns True.
  pub client_option_refused :
      (opt : ℕ) (s : Session)
      → s.server ≡ true
      → s.closing ≡ false
      → elem opt client_options ≡ true
      → elem opt s.always_wont ≡ false
      → ((handle_do host opt s).0 ≡ ok true)
        × ((handle_do host opt s).1.sent ≡ s.sent ++ (cmd_iac ∷ cmd_wont ∷ opt ∷ []))
  unfolding handle_do ◌>>=◌
  client_option_refused opt s server conn known free =
      let (r, sent) = iac_exact cmd_wont opt s IsNegotiation-wont conn in
      (ground (arith, r), ground (arith, r, sent))

  -- A client on an open connection declines a MUD protocol that it was not told to accept: it
  -- returns False, and writes WONT unless the option is on, and nothing else.
  pub mud_declined :
      (opt : ℕ) (s : Session)
      → s.server ≡ false
      → s.closing ≡ false
      → elem opt mud_protocol_options ≡ true
      → elem opt s.always_will ≡ false
      → ((handle_do host opt s).0 ≡ ok false)
        × ((handle_do host opt s).1.sent
            ≡ s.sent ++ (if local_enabled s opt then [] else cmd_iac ∷ cmd_wont ∷ opt ∷ []))
  unfolding handle_do do_known ◌>>=◌
  mud_declined opt s server conn mud free =
      let (r, sent, kept) = unless_local-wont opt s conn in
      let (ne_echo, ne_tm, ne_logout, known) = mud_known opt mud in
      (ground (arith, r), ground (arith, r, sent))

  -- An option that the writer does not know is refused: on an open connection `handle_do` returns
  -- False, writes WONT unless the option is on, and notes the option among those rejected.
  pub unknown_do_declined :
      (opt : ℕ) (s : Session)
      → s.closing ≡ false
      → elem opt (opt_tm ∷ opt_logout ∷ client_options ++ do_options) ≡ false
      → elem opt s.always_will ≡ false
      → elem opt s.always_wont ≡ false
      → ((handle_do host opt s).0 ≡ ok false)
        × ((handle_do host opt s).1.sent
            ≡ s.sent ++ (if local_enabled s opt then [] else cmd_iac ∷ cmd_wont ∷ opt ∷ []))
        × (elem opt (handle_do host opt s).1.rejected_do ≡ true)
  unfolding handle_do ◌>>=◌
  unknown_do_declined opt s conn unknown not_will not_wont =
      let (ne_echo, ne_tm, ne_logout, not_client, not_do) = unknown_do opt unknown in
      let t = record s {
        rejected_do = if elem opt s.rejected_do then s.rejected_do else opt ∷ s.rejected_do;
      } in
      let (r, sent, kept) = unless_local-wont opt t conn in
      (
        ground (arith, r),
        ground (arith, r, sent),
        ground (arith, r, kept, elem-add opt s.rejected_do),
      )

  -- The same for WILL: on an open connection `handle_will` of an unknown option writes DONT unless
  -- the peer's option is known to be off, notes the option among those rejected and leaves it off.
  pub unknown_will_declined :
      (opt : ℕ) (s : Session)
      → s.closing ≡ false
      → elem opt (opt_tm ∷ opt_logout ∷ opt_status ∷ will_options ++ reported_options) ≡ false
      → elem opt s.always_do ≡ false
      → elem opt s.always_dont ≡ false
      → ((handle_will host opt s).0 ≡ ok tt)
        × ((handle_will host opt s).1.sent
            ≡ s.sent ++ (if refused s opt then [] else cmd_iac ∷ cmd_dont ∷ opt ∷ []))
        × (elem opt (handle_will host opt s).1.rejected_will ≡ true)
        × (remote_enabled (handle_will host opt s).1 opt ≡ false)
  unfolding handle_will ◌>>=◌
  unknown_will_declined opt s conn unknown not_do not_dont =
      let (ne_tm, ne_logout, ne_status, not_will, not_reported) = unknown_will opt unknown in
      let (r, sent) = iac_exact cmd_dont opt s IsNegotiation-dont conn in
      let off = (iac_refusal opt s).1 in
      (
        ground (arith, r),
        ground (arith, r, sent, ne_logout),
        ground (arith, r, elem-add opt (iac cmd_dont opt s).1.rejected_will),
        ground (arith, r, off),
      )
