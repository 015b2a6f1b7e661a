-- ===== src/Interp/Empty.antt =====
-- The empty subnegotiation `IAC SB IAC SE`.
use telnetlib.Prelude.{ℕ, true, [], ◌∷◌, ◌≡◌, ◌≢◌, arith, nat_eq, elem, refl}
use telnetlib.Telopt.{cmd_iac, cmd_sb, cmd_se}
use telnetlib.Exec.{ok, ◌>>=◌}
use telnetlib.Interp.{
  nothing, Interp, Methods, keep_cmd, is_oob, on_session, second_byte, snoop_byte, sb_end,
  command_byte, other_byte, iac_byte, feed_byte, feed_all,
}
use telnetlib.Session.{call}
use telnetlib.Interp.Stream.{IsIdle, feed_byte-plain, feed_all-append}

module _ (m : Methods) where
  -- The parser behind it waits for the second byte of a command, though none was begun.
  record IsAstray (i j : Interp) : Type 0 where
    iac : i.iac_received ≡ true
    no_cmd : keep_cmd i.cmd_received ≡ nothing
    session : i.session ≡ j.session

  empty_frame :
      (i : Interp)
      → IsIdle i
      → i.sb_buffer ≡ []
      → ((feed_all m (cmd_iac ∷ cmd_sb ∷ cmd_iac ∷ cmd_se ∷ []) i).0 ≡ [])
        × IsAstray (feed_all m (cmd_iac ∷ cmd_sb ∷ cmd_iac ∷ cmd_se ∷ []) i).1 i
  unfolding feed_all feed_byte iac_byte other_byte second_byte command_byte sb_end is_oob keep_cmd
      elem ◌>>=◌
  empty_frame i h empty = ground (arith, h.no_iac, h.no_cmd, empty)

  astray_iac :
      (i j : Interp)
      → IsAstray i j
      → ((feed_byte m cmd_iac i).0 ≡ ok true)
        × IsIdle (feed_byte m cmd_iac i).1
        × ((feed_byte m cmd_iac i).1.session ≡ j.session)
  unfolding feed_byte iac_byte is_oob keep_cmd ◌>>=◌
  astray_iac i j h = ground (arith, h.iac, h.no_cmd, h.session)

  -- what a negotiation would change
  abbrev pub SameOptions : Interp → Interp → Type 0
  SameOptions i j =
      (i.session.local_option ≡ j.session.local_option)
      × (i.session.remote_option ≡ j.session.remote_option)
      × (i.session.pending_option ≡ j.session.pending_option)
      × (i.session.sent ≡ j.session.sent)

  plain_options :
      (b : ℕ) (i j : Interp)
      → IsIdle i
      → b ≢ cmd_iac
      → SameOptions i j
      → SameOptions (feed_byte m b i).1 j
  unfolding feed_byte other_byte snoop_byte on_session call is_oob keep_cmd ◌>>=◌
  plain_options b i j h ne same = ground (arith, h.no_iac, h.no_cmd)

  derailed :
      (cmd opt : ℕ) (i j : Interp)
      → IsAstray i j
      → cmd ≢ cmd_iac
      → opt ≢ cmd_iac
      → ((feed_all m (cmd_iac ∷ cmd ∷ opt ∷ []) i).0 ≡ cmd_iac ∷ cmd ∷ opt ∷ [])
        × SameOptions (feed_all m (cmd_iac ∷ cmd ∷ opt ∷ []) i).1 j
  unfolding feed_all
  derailed cmd opt i j h nc ne =
      let (r1, idle, same) = astray_iac i j h in
      let first = feed_byte-plain m cmd _ idle nc in
      let second = feed_byte-plain m opt _ first.1 ne in
      (
        rw (r1, first.0, second.0),
        plain_options opt _ j first.1 ne
            (plain_options cmd _ j idle nc (rw same (refl, refl, refl, refl))),
      )

  -- An empty subnegotiation, read between two commands, derails the parser: the three bytes of the
  -- negotiation command that follows, whose option is not byte 255, are passed on to the reader as data, and no option changes
  -- and nothing is answered.
  pub empty_subnegotiation_derails :
      (cmd opt : ℕ) (i : Interp)
      → IsIdle i
      → i.sb_buffer ≡ []
      → cmd ≢ cmd_iac
      → opt ≢ cmd_iac
      → ((feed_all m (cmd_iac ∷ cmd_sb ∷ cmd_iac ∷ cmd_se ∷ cmd_iac ∷ cmd ∷ opt ∷ []) i).0
          ≡ cmd_iac ∷ cmd ∷ opt ∷ [])
        × SameOptions
            (feed_all m (cmd_iac ∷ cmd_sb ∷ cmd_iac ∷ cmd_se ∷ cmd_iac ∷ cmd ∷ opt ∷ []) i).1
            i
  empty_subnegotiation_derails cmd opt i h empty nc ne =
      let (nothing_in_band, astray) = empty_frame i h empty in
      let (rest, same) = derailed cmd opt _ i astray nc ne in
      rw (feed_all-append m (cmd_iac ∷ cmd_sb ∷ cmd_iac ∷ cmd_se ∷ []) (cmd_iac ∷ cmd ∷ opt ∷ []) i)
        (rw (nothing_in_band, rest), same)
