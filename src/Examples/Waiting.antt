-- ===== src/Examples/Waiting.antt =====
-- A writer that is waited for.
use telnetlib.Prelude.{true, false, [], ◌∷◌, ◌≡◌, refl}
use telnetlib.Telopt.{cmd_do, opt_ttype, opt_echo}
use telnetlib.Session.Waiters.{
  Condition, Waiting, local, pending, wait_for, set_option, is_met, here, next, waits, changes,
}
use telnetlib.Session.Waiters.Prompt.{IsPrompt, waiters-IsPrompt, pending_condition_idle}
use telnetlib.Examples.{new_session}

abbrev nobody : Waiting
nobody = record { session = new_session true; waiters = [] }

abbrev echo_on : Condition
echo_on = record { side = local; opt = opt_echo; expected = true }

waiters-IsPrompt_example :
    IsPrompt (set_option local (opt_echo ∷ []) true (wait_for (echo_on ∷ []) nobody).1)
waiters-IsPrompt_example =
    waiters-IsPrompt refl
      (next (next here (waits (echo_on ∷ []))) (changes local (opt_echo ∷ []) true))

pending_condition_idle_example :
    is_met
      (record (new_session true) { pending_option = (cmd_do ∷ opt_ttype ∷ [], true) ∷ [] })
      (record { side = pending; opt = opt_ttype; expected = false })
    ≡ true
pending_condition_idle_example =
    pending_condition_idle
      (record (new_session true) { pending_option = (cmd_do ∷ opt_ttype ∷ [], true) ∷ [] })
      opt_ttype false refl
