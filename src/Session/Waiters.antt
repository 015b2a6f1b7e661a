-- ===== src/Session/Waiters.antt =====
-- stream_writer.py: `wait_for`, `_check_waiters`, `_cancel_waiters` and the class Option, whose
-- assignments call `_check_waiters`. The coroutine of a waiter goes on when its future is done.
pub mod Prompt
use telnetlib.Prelude.{
  ℕ, zero, suc, Bool, true, false, ◌&&◌, ◌||◌, not, List, [], ◌∷◌, ◌++◌, Option, none, some,
  if◌then◌else◌, ◌==◌, bytes_eq, Bytes,
}
use telnetlib.Dict
use telnetlib.Session.{Session, Options, enabled, set_local, set_remote}

-- the three dicts of options
pub data Side : Type 0 where
  remote local pending : Side

-- `remote={name: expected}` and so on; `option_from_name` gives the byte of the name
pub record Condition : Type 0 where
  pub side : Side
  pub opt : ℕ
  pub expected : Bool

pub data Future : Type 0 where
  waiting resolved cancelled : Future

pub record Awaiter : Type 0 where
  pub conditions : List Condition
  pub future : Future

-- the writer with `_waiters`
pub record Waiting : Type 0 where
  pub session : Session
  pub waiters : List Awaiter

abbrev pub options_of : Side → Session → Options
options_of remote s = s.remote_option
options_of local s = s.local_option
options_of pending s = s.pending_option

-- one condition: Option.enabled, or `get(opt) not in (False, None)` turned round
unfoldable pub is_met : Session → Condition → Bool
is_met s c =
    if c.expected
    then enabled (options_of c.side s) (c.opt ∷ [])
    else not (enabled (options_of c.side s) (c.opt ∷ []))

-- the function `check` of `wait_for`
unfoldable pub check : Session → List Condition → Bool
check s [] = true
check s (c ∷ cs) = let rest = check s cs in if is_met s c then rest else false

unfoldable pub is_done : Future → Bool
is_done waiting = false
is_done f = true

-- one round of `_check_waiters`
unfoldable pub check_waiter : Session → Awaiter → Awaiter
check_waiter s w =
    if not (is_done w.future) && check s w.conditions then record w { future = resolved } else w

-- the loop of `_check_waiters`
unfoldable pub check_each : Session → List Awaiter → List Awaiter
check_each s [] = []
check_each s (w ∷ ws) = check_waiter s w ∷ check_each s ws

-- _check_waiters
unfoldable pub check_waiters : Waiting → Waiting
check_waiters t = record t { waiters = check_each t.session t.waiters }

abbrev pub put_option : Side → Bytes → Bool → Session → Session
put_option remote key value s = set_remote key value s
put_option local key value s = set_local key value s
put_option pending key value s = record s { pending_option = Dict.put s.pending_option key value }

-- Option.__setitem__
unfoldable pub set_option : Side → Bytes → Bool → Waiting → Waiting
set_option side key value t =
    check_waiters (record t { session = put_option side key value t.session })

-- `if check(): return True`, or a new waiter
abbrev pub registered : List Condition → Waiting → Bool → Bool × Waiting
registered conditions t true = (true, t)
registered conditions t false = (
  false,
  record t { waiters = t.waiters ++ (record { conditions = conditions; future = waiting } ∷ []) },
)

-- `wait_for` up to its await
unfoldable pub wait_for : List Condition → Waiting → Bool × Waiting
wait_for conditions t = registered conditions t (check t.session conditions)

-- the `finally` of `wait_for`, for the waiter at a place
unfoldable pub forget_waiter : ℕ → List Awaiter → List Awaiter
forget_waiter i [] = []
forget_waiter zero (w ∷ ws) = ws
forget_waiter (suc i) (w ∷ ws) = w ∷ forget_waiter i ws

abbrev pub cancel : Future → Future
cancel waiting = cancelled
cancel f = f

unfoldable pub cancel_each : List Awaiter → List Future
cancel_each [] = []
cancel_each (w ∷ ws) = cancel w.future ∷ cancel_each ws

-- `_cancel_waiters`: the futures that are left to the coroutines, and the writer
unfoldable pub cancel_waiters : Waiting → List Future × Waiting
cancel_waiters t = (cancel_each t.waiters, record t { waiters = [] })

-- What happens to a writer that is waited for.
pub data Step (t : Waiting) : Waiting → Type 0 where
  waits : (conditions : List Condition) → Step t (wait_for conditions t).1
  changes : (side : Side) (key : Bytes) (value : Bool) → Step t (set_option side key value t)
  goes_on : (i : ℕ) → Step t (record t { waiters = forget_waiter i t.waiters })
  closes : Step t (cancel_waiters t).1

pub data Reachable (t : Waiting) : Waiting → Type 0 where
  here : Reachable t t
  next : {u v : Waiting} → Reachable t u → Step u v → Reachable t v
