-- ===== src/Guard/Refinement.antt =====
-- What ConnectionCounter and `guarded_shell` show of themselves is what the server without a counter
-- does, and no less.
use telnetlib.Prelude.{
  ℕ, ◌+◌, ◌≤◌, Bool, true, false, List, ◌∷◌, ◌++◌, Option, if◌then◌else◌, nat_eq, ◌≡◌, refl, sym,
  ap, ◌∙◌, ◌⊎◌, arith,
}
use telnetlib.Guard.{
  Counter, Phase, arrived, in_busy_shell, returned, Pool, new_pool, first_phase, enter, leave,
  closes, is_admitted, Runs, starts, dropped, answers, breaks, ends, ends_robot, ends_busy, Step,
  connects, turn, Reachable, here, next,
}
use telnetlib.Guard.Slots.{
  admitted, has_room, Moves, admits, turns_away, is_dropped, is_answered, is_broken, has_ended,
  robot_ended, busy_ended, SpecStep, has_connected, has_moved, counting, within, IsCounted, one,
  admitted-middle, enter-counting, Runs-counts, Runs-Moves, IsCounted-new,
}

-- The counter before a turn, with the connection that takes it set apart.
abbrev others_of : List Phase → List Phase → ℕ
others_of before after = admitted before + admitted after

apart :
    (phases before after : List Phase) (p : Phase)
    → phases ≡ before ++ (p ∷ after)
    → admitted phases ≡ one p + others_of before after
apart phases before after p e = ap admitted e ∙ admitted-middle before after p

Step-IsCounted :
    (robot_check : Bool) (limit : ℕ) {p q : Pool}
    → Step p q
    → IsCounted robot_check limit p
    → IsCounted robot_check limit q
unfolding admitted is_admitted
Step-IsCounted robot_check limit connects k = record {
  checks = k.checks;
  counts = k.counts ∙ ap (counting limit) (omega arith);
  bounded = ap (within limit) (omega arith) ∙ k.bounded;
}
Step-IsCounted robot_check limit (turn before after p q c e run) k =
    let h = apart _ before after p e in
    let back = sym (admitted-middle before after q) in
    let (f, w) =
      Runs-counts limit (others_of before after) run (k.counts ∙ ap (counting limit) h)
        (sym (ap (within limit) h) ∙ k.bounded) in
    record {
      checks = k.checks;
      counts = f ∙ ap (counting limit) back;
      bounded = ap (within limit) (sym back) ∙ w;
    }

-- The counter counts the connections behind the guard in every state that a new server comes to.
pub Reachable-IsCounted :
    (robot_check : Bool) (limit : ℕ) {p : Pool}
    → Reachable (new_pool robot_check limit) p
    → IsCounted robot_check limit p
Reachable-IsCounted robot_check limit here = IsCounted-new robot_check limit
Reachable-IsCounted robot_check limit (next r st) =
    Step-IsCounted robot_check limit st (Reachable-IsCounted robot_check limit r)

Step-SpecStep :
    (robot_check : Bool) (limit : ℕ) {p q : Pool}
    → Step p q
    → IsCounted robot_check limit p
    → SpecStep robot_check limit p.phases q.phases
Step-SpecStep robot_check limit connects k = has_connected
Step-SpecStep robot_check limit (turn before after p q c e run) k =
    let h = apart _ before after p e in
    has_moved before after p q e (
      rw (h, sym k.checks)
        (Runs-Moves limit (others_of before after) run (k.counts ∙ ap (counting limit) h)))

-- In every state that a new server comes to, at most `limit` connections are behind the guard,
-- unless the limit is 0, which is none.
pub guard_bounded :
    (robot_check : Bool) (limit : ℕ) {p : Pool}
    → Reachable (new_pool robot_check limit) p
    → (limit ≡ 0) ⊎ (admitted p.phases ≤ limit)
guard_bounded robot_check limit r =
    let k = Reachable-IsCounted robot_check limit r in ground (arith, k.bounded)

-- Whatever turns the connections of a new server take, and however the robot check and the shells
-- end, a step of the server is one of a server without a counter: a connection is let in exactly
-- when fewer than `limit` connections are behind the guard, or the limit is 0, and is turned away
-- otherwise.
pub guard_refines :
    (robot_check : Bool) (limit : ℕ) {p q : Pool}
    → Reachable (new_pool robot_check limit) p
    → Step p q
    → SpecStep robot_check limit p.phases q.phases
guard_refines robot_check limit r st =
    Step-SpecStep robot_check limit st (Reachable-IsCounted robot_check limit r)

abbrev entered : Bool → ℕ → ℕ → Bool → Phase × Option Counter
entered robot_check limit taken room =
    if room
    then (first_phase robot_check, counting limit (1 + taken))
    else (in_busy_shell, counting limit taken)

enters :
    (robot_check : Bool) (limit taken : ℕ) (c : Option Counter) (room : Bool)
    → c ≡ counting limit taken
    → has_room limit taken ≡ room
    → enter robot_check c ≡ entered robot_check limit taken room
enters robot_check limit taken c room e r =
    ap (enter robot_check) e
    ∙ (enter-counting robot_check limit taken ∙ ap (entered robot_check limit taken) r)

Moves-Runs :
    (limit others : ℕ) (robot_check : Bool) {room : Bool} {p q : Phase} (c : Option Counter)
    → Moves robot_check room p q
    → c ≡ counting limit (one p + others)
    → room ≡ has_room limit (one p + others)
    → (d : Option Counter) × Runs robot_check (p, c) (q, d)
unfolding is_admitted closes
Moves-Runs limit others robot_check c (admits room) e r = (
  counting limit (1 + (0 + others)),
  rw (sym (enters robot_check limit (0 + others) c true e (sym r ∙ room))) (starts c),
)
Moves-Runs limit others robot_check c (turns_away full) e r = (
  counting limit (0 + others),
  rw (sym (enters robot_check limit (0 + others) c false e (sym r ∙ full))) (starts c),
)
Moves-Runs limit others robot_check c is_dropped e r = (c, dropped c)
Moves-Runs limit others robot_check c (is_answered passed) e r = (c, answers c passed)
Moves-Runs limit others robot_check c is_broken e r = (leave c, breaks c)
Moves-Runs limit others robot_check c has_ended e r = (leave c, ends c returned)
Moves-Runs limit others robot_check c (robot_ended result) e r = (leave c, ends_robot c result)
Moves-Runs limit others robot_check c busy_ended e r = (c, ends_busy c returned)

-- Each step of the server without a counter is one that a new server can make too, from any state
-- that it comes to: none is held back by the counter.
pub guard_complete :
    (robot_check : Bool) (limit : ℕ) {p : Pool} {phases : List Phase}
    → Reachable (new_pool robot_check limit) p
    → SpecStep robot_check limit p.phases phases
    → (q : Pool) × (Step p q × (q.phases ≡ phases))
guard_complete robot_check limit {p} r has_connected =
    (record p { phases = arrived ∷ p.phases }, (connects, refl))
guard_complete robot_check limit {p} r (has_moved before after x y e move) =
    let k = Reachable-IsCounted robot_check limit r in
    let h = apart p.phases before after x e in
    let (c, run) =
      Moves-Runs limit (others_of before after) p.robot_check p.counter (rw k.checks move)
        (k.counts ∙ ap (counting limit) h) (ap (has_room limit) h) in
    (
      record p { counter = c; phases = before ++ (y ∷ after) },
      (turn before after x y c e run, refl),
    )
