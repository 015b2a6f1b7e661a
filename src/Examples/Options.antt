-- ===== src/Examples/Options.antt =====
-- The theorems on the negotiation of options, at new sessions.
use telnetlib.Prelude.{nat_eq, true, false, ◌≡◌, refl, inl}
use telnetlib.Telopt.{cmd_do, opt_sga}
use telnetlib.Exec.{ok}
use telnetlib.Session.Iac.{iac, iac_once}
use telnetlib.Examples.{new_session}

iac_once_example :
    ((iac cmd_do opt_sga (iac cmd_do opt_sga (new_session true)).1).0 ≡ ok false)
    × ((iac cmd_do opt_sga (iac cmd_do opt_sga (new_session true)).1).1.sent
        ≡ (iac cmd_do opt_sga (new_session true)).1.sent)
iac_once_example = iac_once cmd_do opt_sga (new_session true) (inl refl)
