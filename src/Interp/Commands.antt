-- ===== src/Interp/Commands.antt =====
-- What the parser does with a whole subnegotiation and a whole negotiation command.
use telnetlib.Prelude.{
  ℕ, true, false, [], ◌∷◌, ◌++◌, ◌≡◌, ◌≢◌, refl, arith, Bytes, ◌==◌, nat_eq, ap, if◌then◌else◌,
  Bool-cases, inl, inr, elem, append_assoc, append-nil, ◌∙◌,
}
use telnetlib.Telopt.{cmd_iac, cmd_sb, cmd_se, cmd_do, cmd_dont, cmd_will, cmd_wont}
use telnetlib.Exec.{ok, ◌>>=◌}
use telnetlib.Session.{Session}
use telnetlib.Session.Requests.{escape_iac, frame}
use telnetlib.Interp.{
  nothing, byte, Interp, Methods, keep_cmd, is_oob, on_session, second_byte, sb_end, third_byte,
  command_byte, other_byte, iac_byte, in_band, feed_byte, feed_all, do_byte, dont_byte, will_byte,
  wont_byte,
}
use telnetlib.Interp.Stream.{IsIdle, feed_all-append}

-- Within a subnegotiation whose buffer is `buf`, with the session `s`.
record InFrame (buf : Bytes) (s : Session) (i : Interp) : Type 0 where
  no_iac : i.iac_received ≡ false
  is_sb : keep_cmd i.cmd_received ≡ byte cmd_sb
  buffer : i.sb_buffer ≡ buf
  session : i.session ≡ s

-- An IAC was read there.
record InFrameIac (buf : Bytes) (s : Session) (i : Interp) : Type 0 where
  iac : i.iac_received ≡ true
  is_sb : keep_cmd i.cmd_received ≡ byte cmd_sb
  buffer : i.sb_buffer ≡ buf
  session : i.session ≡ s

-- An IAC was read between two commands.
record IsEscaped (i j : Interp) : Type 0 where
  iac : i.iac_received ≡ true
  no_cmd : keep_cmd i.cmd_received ≡ nothing
  buffer : i.sb_buffer ≡ j.sb_buffer
  session : i.session ≡ j.session

module _ (m : Methods) where
  feed_iac :
      (i : Interp)
      → IsIdle i
      → ((feed_byte m cmd_iac i).0 ≡ ok false) × IsEscaped (feed_byte m cmd_iac i).1 i
  unfolding feed_byte iac_byte is_oob keep_cmd ◌>>=◌
  feed_iac i h = ground (arith, h.no_iac, h.no_cmd)

  feed_sb :
      (i j : Interp)
      → IsEscaped i j
      → ((feed_byte m cmd_sb i).0 ≡ ok false)
        × InFrame j.sb_buffer j.session (feed_byte m cmd_sb i).1
  unfolding feed_byte other_byte second_byte is_oob keep_cmd elem ◌>>=◌
  feed_sb i j h = ground (arith, h.iac, h.no_cmd, h.buffer, h.session)

  module _ (buf : Bytes) (s : Session) where
    frame_plain :
        (b : ℕ) (i : Interp)
        → b ≢ cmd_iac
        → InFrame buf s i
        → ((feed_byte m b i).0 ≡ ok false) × InFrame (buf ++ (b ∷ [])) s (feed_byte m b i).1
    unfolding feed_byte other_byte command_byte is_oob keep_cmd ◌>>=◌
    frame_plain b i ne h = ground (arith, h.no_iac, h.is_sb, h.buffer, h.session)

    frame_iac :
        (i : Interp)
        → InFrame buf s i
        → ((feed_byte m cmd_iac i).0 ≡ ok false) × InFrameIac buf s (feed_byte m cmd_iac i).1
    unfolding feed_byte iac_byte is_oob keep_cmd ◌>>=◌
    frame_iac i h = ground (arith, h.no_iac, h.is_sb, h.buffer, h.session)

    frame_iac_again :
        (i : Interp)
        → InFrameIac buf s i
        → ((feed_byte m cmd_iac i).0 ≡ ok false)
          × InFrame (buf ++ (cmd_iac ∷ [])) s (feed_byte m cmd_iac i).1
    unfolding feed_byte iac_byte is_oob keep_cmd ◌>>=◌
    frame_iac_again i h = ground (arith, h.iac, h.is_sb, h.buffer, h.session)

  frame_start :
      (opt : ℕ) (i : Interp)
      → IsIdle i
      → i.sb_buffer ≡ []
      → opt ≢ cmd_iac
      → ((feed_all m (cmd_iac ∷ cmd_sb ∷ opt ∷ []) i).0 ≡ [])
        × InFrame (opt ∷ []) i.session (feed_all m (cmd_iac ∷ cmd_sb ∷ opt ∷ []) i).1
  unfolding feed_all
  frame_start opt i h empty ne =
      let start = feed_iac i h in
      let sb = feed_sb (feed_byte m cmd_iac i).1 i start.1 in
      let name = frame_plain i.sb_buffer i.session opt _ ne sb.1 in
      (ground (arith, start.0, sb.0, name.0), ground (arith, name.1))

  frame_payload :
      (payload buf : Bytes) (s : Session) (i : Interp)
      → InFrame buf s i
      → ((feed_all m (escape_iac payload) i).0 ≡ [])
        × InFrame (buf ++ payload) s (feed_all m (escape_iac payload) i).1
  unfolding feed_all escape_iac
  frame_payload [] buf s i h = (refl, rw append-nil h)
  frame_payload (c ∷ cs) buf s i h = elim (Bool-cases (c == cmd_iac)) [
    | inl is_iac ↦
        let first = frame_iac buf s i h in
        let again = frame_iac_again buf s (feed_byte m cmd_iac i).1 first.1 in
        let rest = frame_payload cs (buf ++ (cmd_iac ∷ [])) s _ again.1 in
        (
          ground (arith, first.0, again.0, rest.0),
          ground (arith, rest.1, append_assoc buf (cmd_iac ∷ []) cs),
        )
    | inr not_iac ↦
        let first = frame_plain buf s c i (ground arith) h in
        let rest = frame_payload cs (buf ++ (c ∷ [])) s _ first.1 in
        rw not_iac (ground (arith, first.0, rest.0), rw append_assoc at rest.1)
  ]

  -- The parser is between two commands, with nothing buffered and the session `s`.
  pub record IsDone (s : Session) (i : Interp) : Type 0 where
    pub idle : IsIdle i
    pub no_buffer : i.sb_buffer ≡ []
    pub session : i.session ≡ s

  frame_end :
      (c : ℕ) (cs : Bytes) (s : Session) (i : Interp)
      → InFrameIac (c ∷ cs) s i
      → (in_band (feed_byte m cmd_se i).0 cmd_se [] ≡ [])
        × IsDone (m.handle_subnegotiation (c ∷ cs) s).1 (feed_byte m cmd_se i).1
  unfolding feed_byte other_byte command_byte sb_end on_session is_oob keep_cmd elem ◌>>=◌
  frame_end c cs s i h = ground (arith, h.iac, h.is_sb, h.buffer, h.session)

  frame_stop :
      (c : ℕ) (cs : Bytes) (s : Session) (i : Interp)
      → InFrame (c ∷ cs) s i
      → ((feed_all m (cmd_iac ∷ cmd_se ∷ []) i).0 ≡ [])
        × IsDone (m.handle_subnegotiation (c ∷ cs) s).1 (feed_all m (cmd_iac ∷ cmd_se ∷ []) i).1
  unfolding feed_all
  frame_stop c cs s i h =
      let iac = frame_iac (c ∷ cs) s i h in
      let end = frame_end c cs s _ iac.1 in (ground (arith, iac.0, end.0), end.1)

  -- A whole subnegotiation, `IAC SB opt`, where opt is not byte 255, a payload with every IAC doubled
  -- and `IAC SE`, read
  -- between two commands with nothing buffered: nothing of it reaches the reader, the handler is
  -- called once, with the option and the payload as they were before the escaping, and the parser
  -- is between two commands again, also where the handler raises.
  pub feed_all-frame :
      (opt : ℕ) (payload : Bytes) (i : Interp)
      → IsIdle i
      → i.sb_buffer ≡ []
      → opt ≢ cmd_iac
      → ((feed_all m (frame opt (escape_iac payload)) i).0 ≡ [])
        × IsDone
            (m.handle_subnegotiation (opt ∷ payload) i.session).1
            (feed_all m (frame opt (escape_iac payload)) i).1
  feed_all-frame opt payload i h empty ne =
      let first = frame_start opt i h empty ne in
      let body = frame_payload payload (opt ∷ []) i.session _ first.1 in
      let last = frame_stop opt payload i.session _ body.1 in
      rw
        (
          feed_all-append m (cmd_iac ∷ cmd_sb ∷ opt ∷ [])
              (escape_iac payload ++ (cmd_iac ∷ cmd_se ∷ [])),
          feed_all-append m (escape_iac payload) (cmd_iac ∷ cmd_se ∷ []),
        )
        (rw (first.0, body.0, last.0), last.1)

  -- What a whole negotiation command does to the session.
  abbrev pub negotiated : ℕ → ℕ → Session → Session
  negotiated cmd opt s =
      if cmd == cmd_do
      then (do_byte m opt s).1
      else if cmd == cmd_dont
      then (dont_byte m opt s).1
      else if cmd == cmd_will
      then (will_byte m opt s).1
      else (wont_byte m opt s).1

  feed_cmd :
      (cmd : ℕ) (i j : Interp)
      → elem cmd (cmd_do ∷ cmd_dont ∷ cmd_will ∷ cmd_wont ∷ []) ≡ true
      → IsEscaped i j
      → ((feed_byte m cmd i).0 ≡ ok false)
        × ((feed_byte m cmd i).1.cmd_received ≡ byte cmd)
        × ((feed_byte m cmd i).1.iac_received ≡ false)
        × ((feed_byte m cmd i).1.sb_buffer ≡ j.sb_buffer)
        × ((feed_byte m cmd i).1.session ≡ j.session)
  unfolding feed_byte other_byte second_byte is_oob keep_cmd elem ◌>>=◌
  feed_cmd cmd i j neg h = ground (arith, h.iac, h.no_cmd, h.buffer, h.session)

  feed_opt :
      (cmd opt : ℕ) (i : Interp)
      → elem cmd (cmd_do ∷ cmd_dont ∷ cmd_will ∷ cmd_wont ∷ []) ≡ true
      → opt ≢ cmd_iac
      → i.cmd_received ≡ byte cmd
      → (in_band (feed_byte m opt i).0 opt [] ≡ [])
        × IsIdle (feed_byte m opt i).1
        × ((feed_byte m opt i).1.sb_buffer ≡ i.sb_buffer)
        × ((feed_byte m opt i).1.session ≡ negotiated cmd opt i.session)
  unfolding feed_byte other_byte command_byte third_byte on_session is_oob keep_cmd elem ◌>>=◌
  feed_opt cmd opt i neg ne e = ground arith

  -- A negotiation command with its option, read between two commands: nothing of it reaches the
  -- reader, the session becomes what the handler of the command makes of it, the buffer stays, and
  -- the parser is between two commands again, also where the handler raises.
  pub feed_all_negotiation :
      (cmd opt : ℕ) (i : Interp)
      → elem cmd (cmd_do ∷ cmd_dont ∷ cmd_will ∷ cmd_wont ∷ []) ≡ true
      → opt ≢ cmd_iac
      → IsIdle i
      → ((feed_all m (cmd_iac ∷ cmd ∷ opt ∷ []) i).0 ≡ [])
        × IsIdle (feed_all m (cmd_iac ∷ cmd ∷ opt ∷ []) i).1
        × ((feed_all m (cmd_iac ∷ cmd ∷ opt ∷ []) i).1.sb_buffer ≡ i.sb_buffer)
        × ((feed_all m (cmd_iac ∷ cmd ∷ opt ∷ []) i).1.session ≡ negotiated cmd opt i.session)
  unfolding feed_all
  feed_all_negotiation cmd opt i neg ne h =
      let (r1, esc) = feed_iac i h in
      let (r2, is_cmd, no_iac, same, old) = feed_cmd cmd (feed_byte m cmd_iac i).1 i neg esc in
      let (r3, idle, kept, new) = feed_opt cmd opt _ neg ne is_cmd in
      (rw (r1, r2, r3), idle, kept ∙ same, new ∙ ap (negotiated cmd opt) old)
