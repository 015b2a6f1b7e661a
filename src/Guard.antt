-- ===== src/Guard.antt =====
-- guard_shells.py, class ConnectionCounter, and the `guarded_shell` of server.py, run_server.
-- asyncio runs a coroutine without interruption between two awaits, so that a connection is the
-- phase in which it waits, and one step of the server takes one connection to its next wait.
pub mod Slots
pub mod Refinement
use telnetlib.Prelude.{
  ℕ, suc, ◌-◌, Bool, true, false, ◌&&◌, not, List, [], ◌∷◌, ◌++◌, Option, none, some, if◌then◌else◌,
  ◌==◌, nat_eq, ◌≡◌, ltb,
}
use telnetlib.Exec.{Exec, Result, ok, pure, gets, modify, ◌>>=◌, ◌>>◌}

-- class ConnectionCounter
pub record Counter : Type 0 where
  pub limit : ℕ
  pub count : ℕ

-- ConnectionCounter.try_acquire
unfoldable pub try_acquire : Exec Counter Bool
try_acquire = do
  free ← gets (λ c. ltb c.count c.limit)
  if free then (do modify (λ c. record c { count = suc c.count }); pure true) else pure false

-- ConnectionCounter.release
unfoldable pub release : Exec Counter (Unit {0})
release = modify (λ c. if ltb 0 c.count then record c { count = c.count - 1 } else c)

-- What one `guarded_shell` waits for: to be started, or the coroutine it has called. A finished one
-- tells whether it has closed the writer itself.
pub data Phase : Type 0 where
  arrived checking : Phase
  in_busy_shell in_robot_shell in_shell : Phase
  finished : Bool → Phase

-- How the awaited coroutine ends; `failed` is any exception, the cancellation of the task too.
pub data Exit : Type 0 where
  returned : Exit
  failed : Exit

-- The server: its options, the counter if there is one, and the connections.
pub record Pool : Type 0 where
  pub robot_check : Bool
  pub counter : Option Counter
  pub phases : List Phase

-- ConnectionCounter(pty_fork_limit) if pty_fork_limit else None
unfoldable pub new_pool : Bool → ℕ → Pool
new_pool robot_check pty_fork_limit = record {
  robot_check = robot_check;
  counter =
      if pty_fork_limit == 0 then none else some (record { limit = pty_fork_limit; count = 0 });
  phases = [];
}

abbrev pub first_phase : Bool → Phase
first_phase robot_check = if robot_check then checking else in_shell

-- `if counter and not counter.try_acquire()`
unfoldable pub after_acquire : Bool → Result Bool → Phase
after_acquire robot_check (ok true) = first_phase robot_check
after_acquire robot_check _ = in_busy_shell

-- `guarded_shell` up to its first await
unfoldable pub enter : Bool → Option Counter → Phase × Option Counter
enter robot_check none = (first_phase robot_check, none)
enter robot_check (some c) =
    let (acquired, c') = try_acquire c in (after_acquire robot_check acquired, some c')

-- finally: if counter: counter.release()
unfoldable pub leave : Option Counter → Option Counter
leave none = none
leave (some c) = some (release c).1

-- Whether `writer.close()` is called: in the `finally` of `busy_shell`, and where `robot_shell`
-- returns.
unfoldable pub closes : Phase → Exit → Bool
closes in_busy_shell result = true
closes in_robot_shell returned = true
closes phase result = false

-- A connection that is behind the guard, until its coroutine ends.
unfoldable pub is_admitted : Phase → Bool
is_admitted checking = true
is_admitted in_robot_shell = true
is_admitted in_shell = true
is_admitted phase = false

-- One connection, with the counter, runs from one wait to the next.
pub data Runs (robot_check : Bool) : Phase × Option Counter → Phase × Option Counter → Type 0 where
  -- the task starts
  starts : (c : Option Counter) → Runs robot_check (arrived, c) (enter robot_check c)
  -- the task is cancelled before it has started
  dropped : (c : Option Counter) → Runs robot_check (arrived, c) (finished false, c)
  -- `do_robot_check` returns
  answers :
      (c : Option Counter) (passed : Bool)
      → Runs robot_check (checking, c) ((if passed then in_shell else in_robot_shell), c)
  -- `do_robot_check` raises, or the shell behind the guard returns or raises
  breaks : (c : Option Counter) → Runs robot_check (checking, c) (finished false, leave c)
  ends :
      (c : Option Counter) (result : Exit)
      → Runs robot_check (in_shell, c) (finished (closes in_shell result), leave c)
  ends_robot :
      (c : Option Counter) (result : Exit)
      → Runs robot_check (in_robot_shell, c) (finished (closes in_robot_shell result), leave c)
  -- `busy_shell` returns or raises; it is outside of the guard
  ends_busy :
      (c : Option Counter) (result : Exit)
      → Runs robot_check (in_busy_shell, c) (finished (closes in_busy_shell result), c)

-- A connection is made, or one of those there are takes its turn.
pub data Step (pool : Pool) : Pool → Type 0 where
  connects : Step pool (record pool { phases = arrived ∷ pool.phases })
  turn :
      (before after : List Phase) (p q : Phase) (c : Option Counter)
      → pool.phases ≡ before ++ (p ∷ after)
      → Runs pool.robot_check (p, pool.counter) (q, c)
      → Step pool (record pool { counter = c; phases = before ++ (q ∷ after) })

-- The states that a server comes to.
pub data Reachable (pool : Pool) : Pool → Type 0 where
  here : Reachable pool pool
  next : {before after : Pool} → Reachable pool before → Step before after → Reachable pool after
