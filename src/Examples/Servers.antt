-- ===== src/Examples/Servers.antt =====
-- A server with its connections, its terminal and its line editor.
use telnetlib.Prelude.{
  ℕ, zero, suc, ◌≤◌, take, true, false, List, [], ◌∷◌, some, bytes_eq, ◌≡◌, ◌⊎◌, refl, All, Bytes,
  length, arith,
}
use telnetlib.Exec.{◌>>=◌}
use telnetlib.Session.{pos}
use telnetlib.Guard.{
  Pool, new_pool, try_acquire, after_acquire, enter, arrived, in_shell, in_busy_shell, starts, Step,
  connects, turn, Reachable, here, next,
}
use telnetlib.Guard.Slots.{SpecStep, admitted}
use telnetlib.Guard.Refinement.{guard_refines, guard_bounded}
use telnetlib.ServerShell.LineEditor.{Graphemes, new_editor, commands, visible_width}
use telnetlib.ServerShell.LineEditor.Terminated.{by_lf, by_cr_lf, commands-typed}
use telnetlib.ServerShell.LineEditor.Width.{fits, commands-fits}

-- a server for one connection, with one behind the guard and another that arrives
abbrev one_inside : Pool
one_inside = record {
  robot_check = false;
  counter = some (record { limit = 1; count = 1 });
  phases = arrived ∷ in_shell ∷ [];
}

-- the other is turned away
abbrev one_busy : Pool
one_busy = record {
  robot_check = false;
  counter = some (record { limit = 1; count = 1 });
  phases = in_busy_shell ∷ in_shell ∷ [];
}

one_inside-Reachable : Reachable (new_pool false 1) one_inside
unfolding new_pool enter try_acquire after_acquire ◌>>=◌
one_inside-Reachable =
    next
      (next (next here connects)
        (turn [] [] arrived in_shell _ refl (starts (some (record { limit = 1; count = 0 })))))
      connects

one_busy-Step : Step one_inside one_busy
unfolding enter try_acquire after_acquire ◌>>=◌
one_busy-Step = turn [] (in_shell ∷ []) arrived in_busy_shell _ refl (starts one_inside.counter)

guard_refines_example : SpecStep false 1 (arrived ∷ in_shell ∷ []) (in_busy_shell ∷ in_shell ∷ [])
guard_refines_example = guard_refines false 1 one_inside-Reachable one_busy-Step

abbrev one_slot : ℕ
one_slot = 1

guard_bounded_example : (one_slot ≡ 0) ⊎ (admitted (in_busy_shell ∷ in_shell ∷ []) ≤ 1)
guard_bounded_example = guard_bounded false 1 (next one_inside-Reachable one_busy-Step)

-- every character is a grapheme of one column
abbrev narrow : Graphemes
narrow = record { wcswidth = λ text. pos (length text); last_of = λ text. b'a' ∷ [] }

abbrev two_lines : List Bytes
two_lines = (b'h' ∷ b'i' ∷ []) ∷ (b'q' ∷ []) ∷ []

commands-typed_example :
    (commands narrow (new_editor 0) (b'h' ∷ b'i' ∷ 13 ∷ 10 ∷ b'q' ∷ 10 ∷ [])).0 ≡ two_lines
commands-typed_example =
    commands-typed narrow ((b'h' ∷ b'i' ∷ [], by_cr_lf) ∷ (b'q' ∷ [], by_lf) ∷ []) (new_editor 0)
      (record { settled = refl; unlimited = refl }) refl ((refl, (refl, tt)), ((refl, tt), tt))

take_shorter : (n : ℕ) (text : Bytes) → length (take n text) ≤ length text
take_shorter zero text = omega arith
take_shorter (suc n) [] = omega arith
take_shorter (suc n) (c ∷ cs) = omega (arith, take_shorter n cs)

-- "hi!" with an erased character
abbrev overlong : Bytes
overlong = b'h' ∷ b'j' ∷ 8 ∷ b'i' ∷ b'!' ∷ 10 ∷ []

commands-fits_example :
    All (λ line. fits narrow 2 line ≡ true) (commands narrow (new_editor 2) overlong).0
    × (fits narrow 2 (commands narrow (new_editor 2) overlong).1.command ≡ true)
unfolding visible_width
commands-fits_example =
    commands-fits narrow (λ text all. refl) (λ c cs all. refl) overlong 2 (new_editor 2)
      (refl, (refl, (refl, (refl, (refl, (refl, tt)))))) refl tt refl
