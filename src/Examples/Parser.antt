-- ===== src/Examples/Parser.antt =====
-- The theorems on the parser, at concrete streams.
use telnetlib.Prelude.{true, false, [], ◌∷◌, ◌≡◌, refl, arith, inl, elem}
use telnetlib.Telopt.{cmd_iac, cmd_sb, cmd_se, cmd_do, cmd_will, opt_echo, opt_gmcp}
use telnetlib.Session.Requests.{escape_iac, frame}
use telnetlib.Interp.{feed_all, keep_cmd}
use telnetlib.Interp.Stream.{IsIdle, feed_all-escape_iac}
use telnetlib.Interp.Commands.{IsDone, feed_all-frame}
use telnetlib.Interp.Recorded.{handler_sent, local_after, pending_after, feed_all-recorded}
use telnetlib.Session.{local_enabled, pending_enabled}
use telnetlib.Interp.Empty.{SameOptions, empty_subnegotiation_derails}
use telnetlib.Interp.Buffer.{IsWellFormed, feed_all-IsWellFormed}
use telnetlib.Examples.{new_session, new_interp, test_methods}

new_IsIdle : IsIdle (new_interp true)
unfolding keep_cmd
new_IsIdle = record { no_iac = refl; no_cmd = refl }

feed_all-escape_iac_example :
    ((feed_all test_methods (escape_iac (97 ∷ 255 ∷ 98 ∷ [])) (new_interp true)).0
      ≡ 97 ∷ 255 ∷ 98 ∷ [])
    × IsIdle (feed_all test_methods (escape_iac (97 ∷ 255 ∷ 98 ∷ [])) (new_interp true)).1
feed_all-escape_iac_example =
    feed_all-escape_iac test_methods (97 ∷ 255 ∷ 98 ∷ []) (new_interp true) new_IsIdle

feed_all-frame_example :
    ((feed_all test_methods (frame opt_gmcp (escape_iac (1 ∷ 255 ∷ []))) (new_interp true)).0 ≡ [])
    × IsDone test_methods
        (test_methods.handle_subnegotiation (opt_gmcp ∷ 1 ∷ 255 ∷ []) (new_interp true).session).1
        (feed_all test_methods (frame opt_gmcp (escape_iac (1 ∷ 255 ∷ []))) (new_interp true)).1
feed_all-frame_example =
    feed_all-frame test_methods opt_gmcp (1 ∷ 255 ∷ []) (new_interp true) new_IsIdle refl
      (omega arith)

do_is_negotiation : elem cmd_do (253 ∷ 254 ∷ 251 ∷ 252 ∷ []) ≡ true
unfolding elem
do_is_negotiation = refl

feed_all-recorded_example :
    ((feed_all test_methods (cmd_iac ∷ cmd_do ∷ opt_echo ∷ []) (new_interp true)).0 ≡ [])
    × IsIdle (feed_all test_methods (cmd_iac ∷ cmd_do ∷ opt_echo ∷ []) (new_interp true)).1
    × ((feed_all test_methods (cmd_iac ∷ cmd_do ∷ opt_echo ∷ []) (new_interp true)).1.sb_buffer
        ≡ [])
    × ((feed_all test_methods (cmd_iac ∷ cmd_do ∷ opt_echo ∷ []) (new_interp true)).1.session.sent
        ≡ handler_sent test_methods opt_echo (new_session true) cmd_do)
    × (local_enabled
          (feed_all test_methods (cmd_iac ∷ cmd_do ∷ opt_echo ∷ []) (new_interp true)).1.session
          opt_echo
        ≡ local_after test_methods opt_echo (new_session true) cmd_do)
    × (pending_enabled
          (feed_all test_methods (cmd_iac ∷ cmd_do ∷ opt_echo ∷ []) (new_interp true)).1.session
          cmd_will
          opt_echo
        ≡ pending_after test_methods opt_echo (new_session true) cmd_do)
feed_all-recorded_example =
    feed_all-recorded test_methods cmd_do opt_echo (new_interp true) do_is_negotiation (omega arith)
      new_IsIdle

empty_subnegotiation_derails_example :
    ((feed_all test_methods
        (cmd_iac ∷ cmd_sb ∷ cmd_iac ∷ cmd_se ∷ cmd_iac ∷ cmd_do ∷ opt_echo ∷ [])
        (new_interp true)).0
      ≡ cmd_iac ∷ cmd_do ∷ opt_echo ∷ [])
    × SameOptions test_methods
        (feed_all test_methods
          (cmd_iac ∷ cmd_sb ∷ cmd_iac ∷ cmd_se ∷ cmd_iac ∷ cmd_do ∷ opt_echo ∷ [])
          (new_interp true)).1
        (new_interp true)
empty_subnegotiation_derails_example =
    empty_subnegotiation_derails test_methods cmd_do opt_echo (new_interp true) new_IsIdle refl
      (omega arith) (omega arith)

feed_all-IsWellFormed_example :
    IsWellFormed
      (feed_all test_methods (cmd_iac ∷ cmd_sb ∷ opt_gmcp ∷ 65 ∷ []) (new_interp false)).1
feed_all-IsWellFormed_example =
    feed_all-IsWellFormed test_methods (cmd_iac ∷ cmd_sb ∷ opt_gmcp ∷ 65 ∷ []) (new_interp false)
      (inl refl)
