-- ===== src/Interp/Recorded.antt =====
-- What the parser records of a negotiation command beside what its handler does.
use telnetlib.Prelude.{
  ℕ, Bool, true, false, [], ◌∷◌, if◌then◌else◌, ◌==◌, ◌||◌, nat_eq, bytes_eq, elem, ◌≡◌, ◌≢◌, ap,
  ◌∙◌, Bytes, arith,
}
use telnetlib.Telopt.{cmd_iac, cmd_do, cmd_dont, cmd_will, cmd_wont}
use telnetlib.Dict
use telnetlib.Exec.{Result, ok, err, ◌>>=◌}
use telnetlib.Session.{Session, enabled, local_enabled, pending_enabled}
use telnetlib.Interp.{Interp, Methods, feed_all, do_byte, dont_byte, will_byte, wont_byte, settle}
use telnetlib.Interp.Stream.{IsIdle}
use telnetlib.Interp.Commands.{negotiated, feed_all_negotiation}

-- The value that a handler returns, or what stands where it raises.
abbrev pub returned_or : Bool → Result Bool → Bool
returned_or old (ok b) = b
returned_or old (err x) = old

-- False, unless the handler raises
abbrev pub cleared_or : Bool → Result (Unit {0}) → Bool
cleared_or old (ok _) = false
cleared_or old (err x) = old

-- The request that a command answers: DO and DONT answer our WILL, WILL and WONT our DO.
abbrev pub answered : ℕ → ℕ
answered cmd = if cmd == cmd_do || cmd == cmd_dont then cmd_will else cmd_do

module _ (m : Methods) (opt : ℕ) (s : Session) where
  -- what the handler writes
  abbrev pub handler_sent : ℕ → Bytes
  handler_sent cmd =
      if cmd == cmd_do
      then (m.handle_do opt s).1.sent
      else if cmd == cmd_dont
      then (m.handle_dont opt s).1.sent
      else if cmd == cmd_will
      then (m.handle_will opt s).1.sent
      else (m.handle_wont opt s).1.sent

  -- whether the option is on at our end: as the handler of DO says, off after DONT
  abbrev pub local_after : ℕ → Bool
  local_after cmd =
      if cmd == cmd_do
      then returned_or (local_enabled (m.handle_do opt s).1 opt) (m.handle_do opt s).0
      else if cmd == cmd_dont
      then false
      else if cmd == cmd_will
      then local_enabled (m.handle_will opt s).1 opt
      else local_enabled (m.handle_wont opt s).1 opt

  -- whether the request that is answered is still pending
  abbrev pub pending_after : ℕ → Bool
  pending_after cmd =
      if cmd == cmd_wont
      then cleared_or (pending_enabled (m.handle_wont opt s).1 cmd_do opt) (m.handle_wont opt s).0
      else false

  abbrev settled_do : Session
  settled_do = settle cmd_do opt (m.handle_will opt s).1

  do_recorded :
      ((do_byte m opt s).1.sent ≡ (m.handle_do opt s).1.sent)
      × (local_enabled (do_byte m opt s).1 opt
          ≡ returned_or (local_enabled (m.handle_do opt s).1 opt) (m.handle_do opt s).0)
      × (pending_enabled (do_byte m opt s).1 cmd_will opt ≡ false)
  unfolding do_byte enabled ◌>>=◌
  do_recorded = (
    ground arith,
    grind (arith, Dict.get-put (m.handle_do opt s).1.local_option (opt ∷ []) (opt ∷ [])),
    ground (
      arith,
      Dict.get-put (m.handle_do opt s).1.pending_option (cmd_will ∷ opt ∷ []) (cmd_will ∷ opt ∷ [])
          false,
    ),
  )

  dont_recorded :
      ((dont_byte m opt s).1.sent ≡ (m.handle_dont opt s).1.sent)
      × (local_enabled (dont_byte m opt s).1 opt ≡ false)
      × (pending_enabled (dont_byte m opt s).1 cmd_will opt ≡ false)
  unfolding dont_byte enabled ◌>>=◌
  dont_recorded = (
    ground arith,
    ground (arith, Dict.get-put (m.handle_dont opt s).1.local_option (opt ∷ []) (opt ∷ []) false),
    ground (
      arith,
      Dict.get-put (m.handle_dont opt s).1.pending_option (cmd_will ∷ opt ∷ [])
          (cmd_will ∷ opt ∷ []) false,
    ),
  )

  will_recorded :
      ((will_byte m opt s).1.sent ≡ (m.handle_will opt s).1.sent)
      × (local_enabled (will_byte m opt s).1 opt ≡ local_enabled (m.handle_will opt s).1 opt)
      × (pending_enabled (will_byte m opt s).1 cmd_do opt ≡ false)
  unfolding will_byte enabled ◌>>=◌
  will_recorded = (
    ground arith,
    ground arith,
    ground (
      arith,
      Dict.get-put (m.handle_will opt s).1.pending_option (cmd_do ∷ opt ∷ []) (cmd_do ∷ opt ∷ [])
          false,
      Dict.get-put settled_do.pending_option (cmd_dont ∷ opt ∷ []) (cmd_do ∷ opt ∷ []) false,
    ),
  )

  wont_recorded :
      ((wont_byte m opt s).1.sent ≡ (m.handle_wont opt s).1.sent)
      × (local_enabled (wont_byte m opt s).1 opt ≡ local_enabled (m.handle_wont opt s).1 opt)
      × (pending_enabled (wont_byte m opt s).1 cmd_do opt
          ≡ cleared_or (pending_enabled (m.handle_wont opt s).1 cmd_do opt) (m.handle_wont opt s).0)
  unfolding wont_byte enabled ◌>>=◌
  wont_recorded = (
    ground arith,
    ground arith,
    ground (
      arith,
      Dict.get-put (m.handle_wont opt s).1.pending_option (cmd_do ∷ opt ∷ []) (cmd_do ∷ opt ∷ [])
          false,
    ),
  )

  recorded :
      (cmd : ℕ)
      → elem cmd (cmd_do ∷ cmd_dont ∷ cmd_will ∷ cmd_wont ∷ []) ≡ true
      → ((negotiated m cmd opt s).sent ≡ handler_sent cmd)
        × (local_enabled (negotiated m cmd opt s) opt ≡ local_after cmd)
        × (pending_enabled (negotiated m cmd opt s) (answered cmd) opt ≡ pending_after cmd)
  unfolding elem
  recorded cmd neg = ground (arith, neg, do_recorded, dont_recorded, will_recorded, wont_recorded)

-- A negotiation command with its option, other than byte 255, read between two commands: nothing of it
-- reaches the reader, the stream gets what the handler of the command writes and no more, and the
-- parser is between two commands again with the buffer as it was, also where the handler raises. At
-- our end the option is then what the handler of DO returns, and as its handler leaves it where that
-- raises; it is off after DONT, and as the handler leaves it after WILL and WONT. The request that the
-- command answers, WILL for DO and DONT and DO for WILL and WONT, is pending no more, unless the
-- handler of WONT raises.
pub feed_all-recorded :
    (m : Methods) (cmd opt : ℕ) (i : Interp)
    → elem cmd (cmd_do ∷ cmd_dont ∷ cmd_will ∷ cmd_wont ∷ []) ≡ true
    → opt ≢ cmd_iac
    → IsIdle i
    → ((feed_all m (cmd_iac ∷ cmd ∷ opt ∷ []) i).0 ≡ [])
      × IsIdle (feed_all m (cmd_iac ∷ cmd ∷ opt ∷ []) i).1
      × ((feed_all m (cmd_iac ∷ cmd ∷ opt ∷ []) i).1.sb_buffer ≡ i.sb_buffer)
      × ((feed_all m (cmd_iac ∷ cmd ∷ opt ∷ []) i).1.session.sent
          ≡ handler_sent m opt i.session cmd)
      × (local_enabled (feed_all m (cmd_iac ∷ cmd ∷ opt ∷ []) i).1.session opt
          ≡ local_after m opt i.session cmd)
      × (pending_enabled (feed_all m (cmd_iac ∷ cmd ∷ opt ∷ []) i).1.session (answered cmd) opt
          ≡ pending_after m opt i.session cmd)
feed_all-recorded m cmd opt i neg ne h =
    let (nothing_read, idle, kept, new) = feed_all_negotiation m cmd opt i neg ne h in
    let (sent, local, pending) = recorded m opt i.session cmd neg in
    (
      nothing_read,
      idle,
      kept,
      ap (λ s. s.sent) new ∙ sent,
      ap (λ s. local_enabled s opt) new ∙ local,
      ap (λ s. pending_enabled s (answered cmd) opt) new ∙ pending,
    )
