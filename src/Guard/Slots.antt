-- ===== src/Guard/Slots.antt =====
-- ConnectionCounter and `guarded_shell` against a server that has no counter and looks at its
-- connections instead.
use telnetlib.Prelude.{
  ℕ, suc, ◌+◌, Bool, true, false, ◌||◌, List, [], ◌∷◌, ◌++◌, Option, none, some, if◌then◌else◌,
  ◌==◌, nat_eq, ◌≡◌, refl, ap, ◌∙◌, inl, inr, Bool-cases, ltb, arith,
}
use telnetlib.Exec.{◌>>=◌}
use telnetlib.Guard.{
  Counter, try_acquire, release, Phase, arrived, checking, in_busy_shell, in_robot_shell, in_shell,
  finished, Exit, returned, failed, Pool, new_pool, first_phase, after_acquire, enter, leave,
  closes, is_admitted, Runs, starts, dropped, answers, breaks, ends, ends_robot, ends_busy,
}

-- How many connections are behind the guard.
unfoldable pub admitted : List Phase → ℕ
admitted [] = 0
admitted (p ∷ ps) = (if is_admitted p then 1 else 0) + admitted ps

-- A limit of 0 is none.
abbrev pub has_room : ℕ → ℕ → Bool
has_room limit taken = limit == 0 || ltb taken limit

-- What a connection does when it takes its turn and there is `room` or not.
pub data Moves (robot_check room : Bool) : Phase → Phase → Type 0 where
  admits : room ≡ true → Moves robot_check room arrived (first_phase robot_check)
  turns_away : room ≡ false → Moves robot_check room arrived in_busy_shell
  is_dropped : Moves robot_check room arrived (finished false)
  is_answered :
      (passed : Bool)
      → Moves robot_check room checking (if passed then in_shell else in_robot_shell)
  is_broken : Moves robot_check room checking (finished false)
  has_ended : Moves robot_check room in_shell (finished false)
  robot_ended :
      (result : Exit)
      → Moves robot_check room in_robot_shell (finished (closes in_robot_shell result))
  busy_ended : Moves robot_check room in_busy_shell (finished true)

pub data SpecStep (robot_check : Bool) (limit : ℕ) (phases : List Phase) : List Phase → Type 0 where
  has_connected : SpecStep robot_check limit phases (arrived ∷ phases)
  has_moved :
      (before after : List Phase) (p q : Phase)
      → phases ≡ before ++ (p ∷ after)
      → Moves robot_check (has_room limit (admitted phases)) p q
      → SpecStep robot_check limit phases (before ++ (q ∷ after))

-- The counter that counts the connections behind the guard.
abbrev pub counting : ℕ → ℕ → Option Counter
counting limit taken = if limit == 0 then none else some (record { limit = limit; count = taken })

abbrev pub within : ℕ → ℕ → Bool
within limit taken = limit == 0 || ltb taken (suc limit)

pub record IsCounted (robot_check : Bool) (limit : ℕ) (pool : Pool) : Type 0 where
  pub checks : pool.robot_check ≡ robot_check
  pub counts : pool.counter ≡ counting limit (admitted pool.phases)
  pub bounded : within limit (admitted pool.phases) ≡ true

admitted-append : (ps qs : List Phase) → admitted (ps ++ qs) ≡ admitted ps + admitted qs
unfolding admitted
admitted-append [] qs = omega arith
admitted-append (p ∷ ps) qs = omega (arith, admitted-append ps qs)

abbrev pub one : Phase → ℕ
one p = if is_admitted p then 1 else 0

pub admitted-middle :
    (before after : List Phase) (p : Phase)
    → admitted (before ++ (p ∷ after)) ≡ one p + (admitted before + admitted after)
unfolding admitted
admitted-middle before after p = omega (arith, admitted-append before (p ∷ after))

pub enter-counting :
    (robot_check : Bool) (limit taken : ℕ)
    → enter robot_check (counting limit taken) ≡ (
        if has_room limit taken
        then (first_phase robot_check, counting limit (1 + taken))
        else (in_busy_shell, counting limit taken))
unfolding enter try_acquire after_acquire ◌>>=◌
enter-counting robot_check limit taken = ground arith

leave-counting : (limit taken : ℕ) → leave (counting limit (1 + taken)) ≡ counting limit taken
unfolding leave release ◌>>=◌
leave-counting limit taken = ground arith

first_phase-one : (robot_check : Bool) → one (first_phase robot_check) ≡ 1
unfolding is_admitted
first_phase-one true = refl
first_phase-one false = refl

freed :
    (limit others : ℕ) (c : Option Counter)
    → c ≡ counting limit (1 + others)
    → within limit (1 + others) ≡ true
    → (leave c ≡ counting limit (0 + others)) × (within limit (0 + others) ≡ true)
freed limit others c e w =
    (ap leave e ∙ (leave-counting limit others ∙ ap (counting limit) (omega arith)), ground arith)

started :
    (limit others : ℕ) (robot_check : Bool) (c : Option Counter)
    → c ≡ counting limit (0 + others)
    → within limit (0 + others) ≡ true
    → ((enter robot_check c).1 ≡ counting limit (one (enter robot_check c).0 + others))
      × (within limit (one (enter robot_check c).0 + others) ≡ true)
unfolding is_admitted
started limit others robot_check c e w = elim (Bool-cases (has_room limit (0 + others))) [
  | inl room ↦
      rw (e, enter-counting robot_check limit (0 + others), room, first_phase-one robot_check)
        (ap (counting limit) (omega arith), ground arith)
  | inr full ↦ rw (e, enter-counting robot_check limit (0 + others), full) (refl, w)
]

-- A connection that starts is let in where there is room.
arrival_turn :
    (limit others : ℕ) (robot_check : Bool) (c : Option Counter)
    → c ≡ counting limit (0 + others)
    → Moves robot_check (has_room limit (0 + others)) arrived (enter robot_check c).0
arrival_turn limit others robot_check c e = elim (Bool-cases (has_room limit (0 + others))) [
  | inl room ↦ rw (e, enter-counting robot_check limit (0 + others), room) (admits refl)
  | inr full ↦ rw (e, enter-counting robot_check limit (0 + others), full) (turns_away refl)
]

-- A turn at a counter that counts keeps it so: with `others` admitted besides the connection, the
-- counter stands at those and it.
pub Runs-counts :
    (limit others : ℕ) {robot_check : Bool} {x y : Phase × Option Counter}
    → Runs robot_check x y
    → x.1 ≡ counting limit (one x.0 + others)
    → within limit (one x.0 + others) ≡ true
    → (y.1 ≡ counting limit (one y.0 + others)) × (within limit (one y.0 + others) ≡ true)
unfolding is_admitted
Runs-counts limit others {robot_check} (starts c) e w = started limit others robot_check c e w
Runs-counts limit others (dropped c) e w = (e, w)
Runs-counts limit others (answers c true) e w = (e, w)
Runs-counts limit others (answers c false) e w = (e, w)
Runs-counts limit others (breaks c) e w = freed limit others c e w
Runs-counts limit others (ends c returned) e w = freed limit others c e w
Runs-counts limit others (ends c failed) e w = freed limit others c e w
Runs-counts limit others (ends_robot c returned) e w = freed limit others c e w
Runs-counts limit others (ends_robot c failed) e w = freed limit others c e w
Runs-counts limit others (ends_busy c result) e w = (e, w)

pub Runs-Moves :
    (limit others : ℕ) {robot_check : Bool} {x y : Phase × Option Counter}
    → Runs robot_check x y
    → x.1 ≡ counting limit (one x.0 + others)
    → Moves robot_check (has_room limit (one x.0 + others)) x.0 y.0
unfolding is_admitted closes
Runs-Moves limit others {robot_check} (starts c) e = arrival_turn limit others robot_check c e
Runs-Moves limit others (dropped c) e = is_dropped
Runs-Moves limit others (answers c passed) e = is_answered passed
Runs-Moves limit others (breaks c) e = is_broken
Runs-Moves limit others (ends c returned) e = has_ended
Runs-Moves limit others (ends c failed) e = has_ended
Runs-Moves limit others (ends_robot c result) e = robot_ended result
Runs-Moves limit others (ends_busy c result) e = busy_ended

pub IsCounted-new :
    (robot_check : Bool) (limit : ℕ) → IsCounted robot_check limit (new_pool robot_check limit)
unfolding new_pool admitted
IsCounted-new robot_check limit = record { checks = refl; counts = refl; bounded = ground arith }
