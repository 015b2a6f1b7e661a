-- ===== src/Session/Waiters/Prompt.antt =====
-- Who waits for an option of the writer of stream_writer.py is told as soon as there is cause.
use telnetlib.Prelude.{
  ℕ, zero, suc, Bool, true, false, ◌&&◌, ◌||◌, not, List, [], ◌∷◌, ◌++◌, bytes_eq, ◌≡◌, refl, ap,
  All, length, leb, arith,
}
use telnetlib.Dict
use telnetlib.Session.{Session, Options, enabled}
use telnetlib.Session.Waiters.{
  Condition, waiting, Awaiter, Waiting, pending, is_met, check, is_done, check_waiter, check_each,
  check_waiters, put_option, set_option, registered, wait_for, forget_waiter, cancel_waiters, Step,
  waits, changes, goes_on, closes, Reachable, here, next,
}

-- A waiter that waits with cause: not all of its conditions are met.
abbrev pub is_prompt : Session → Awaiter → Bool
is_prompt s w = is_done w.future || not (check s w.conditions)

abbrev pub IsPrompt : Waiting → Type 0
IsPrompt t = All (λ w. is_prompt t.session w ≡ true) t.waiters

check_waiter-prompt : (s : Session) (w : Awaiter) → is_prompt s (check_waiter s w) ≡ true
unfolding check_waiter is_done
check_waiter-prompt s w = ground arith

check_each-prompt :
    (s : Session) (ws : List Awaiter) → All (λ w. is_prompt s w ≡ true) (check_each s ws)
unfolding check_each
check_each-prompt s [] = tt
check_each-prompt s (w ∷ ws) = (check_waiter-prompt s w, check_each-prompt s ws)

module _ (s : Session) where
  All-append_one :
      (ws : List Awaiter) (w : Awaiter)
      → All (λ v. is_prompt s v ≡ true) ws
      → is_prompt s w ≡ true
      → All (λ v. is_prompt s v ≡ true) (ws ++ (w ∷ []))
  All-append_one [] w a h = (h, tt)
  All-append_one (v ∷ vs) w (p, a) h = (p, All-append_one vs w a h)

  All-forget_waiter :
      (i : ℕ) (ws : List Awaiter)
      → All (λ v. is_prompt s v ≡ true) ws
      → All (λ v. is_prompt s v ≡ true) (forget_waiter i ws)
  unfolding forget_waiter
  All-forget_waiter i [] a = tt
  All-forget_waiter zero (w ∷ ws) (p, a) = a
  All-forget_waiter (suc i) (w ∷ ws) (p, a) = (p, All-forget_waiter i ws a)

abbrev unmet : List Condition → Awaiter
unmet conditions = record { conditions = conditions; future = waiting }

added :
    (b : Bool) (conditions : List Condition) (t : Waiting)
    → check t.session conditions ≡ b
    → IsPrompt t
    → IsPrompt (registered conditions t b).1
unfolding is_done
added true conditions t e a = a
added false conditions t e a = All-append_one t.session t.waiters (unmet conditions) a (ap not e)

wait_for-IsPrompt :
    (conditions : List Condition) (t : Waiting) → IsPrompt t → IsPrompt (wait_for conditions t).1
unfolding wait_for
wait_for-IsPrompt conditions t a = added (check t.session conditions) conditions t refl a

Step-IsPrompt : {t u : Waiting} → Step t u → IsPrompt t → IsPrompt u
unfolding set_option check_waiters cancel_waiters
Step-IsPrompt {t} (waits conditions) a = wait_for-IsPrompt conditions t a
Step-IsPrompt {t} (changes side key value) a =
    check_each-prompt (put_option side key value t.session) t.waiters
Step-IsPrompt {t} (goes_on i) a = All-forget_waiter t.session i t.waiters a
Step-IsPrompt closes a = tt

-- From a writer that nobody waits for, whatever is waited for, however the options change, and in
-- whatever order the coroutines go on or the writer closes: a future that still waits belongs to
-- conditions that are not all met.
pub waiters-IsPrompt : {t u : Waiting} → t.waiters ≡ [] → Reachable t u → IsPrompt u
waiters-IsPrompt {t} e here = rw e tt
waiters-IsPrompt e (next r st) = Step-IsPrompt st (waiters-IsPrompt e r)

abbrev are_pairs : Options → Bool
are_pairs [] = true
are_pairs ((key, value) ∷ d) = leb 2 (length key) && are_pairs d

pairs_lack : (d : Options) (opt : ℕ) → are_pairs d ≡ true → enabled d (opt ∷ []) ≡ false
unfolding enabled Dict.get
pairs_lack [] opt h = refl
pairs_lack (([], value) ∷ d) opt h = ground (arith, h)
pairs_lack ((x ∷ [], value) ∷ d) opt h = ground (arith, h)
pairs_lack ((x ∷ y ∷ key, value) ∷ d) opt h = ground (arith, h, pairs_lack d opt)

-- Where each key of the pending options is a command and an option, two bytes at least: a condition
-- on the pending options looks for the byte of an option alone, so that the option is pending is never
-- met, and that it is not pending always is.
pub pending_condition_idle :
    (s : Session) (opt : ℕ) (expected : Bool)
    → are_pairs s.pending_option ≡ true
    → is_met s (record { side = pending; opt = opt; expected = expected }) ≡ not expected
unfolding is_met
pending_condition_idle s opt true h = pairs_lack s.pending_option opt h
pending_condition_idle s opt false h = ap not (pairs_lack s.pending_option opt h)
