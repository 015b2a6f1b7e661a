-- ===== src/ServerShell/Readline.antt =====
-- server_shell.py, readline_async: a line that is read past the escape sequences.
pub mod Shown
use telnetlib.Prelude.{
  ℕ, zero, suc, Bool, true, false, ◌&&◌, ◌||◌, [], ◌∷◌, ◌++◌, Option, none, some, ◌==◌, nat_eq, ◌-◌,
  Bytes, length, ◌≤◌, arith,
}
use telnetlib.Server.{is_blank}
use telnetlib.ServerShell.Escapes.{esc, filter_ansi, escaped, behind_ss3, collecting}
use telnetlib.ServerShell.LineEditor.{Graphemes, LineEditor, lf, nul, feed}

-- A call that has returned, with a command or with None, or that is still reading.
pub data ReadOutcome : Type 0 where
  returned : Option Bytes → ReadOutcome
  reading : ReadOutcome

abbrev pub is_returned : ReadOutcome → Bool
is_returned (returned o) = true
is_returned reading = false

module _ (match_end : Bytes → Option ℕ) where
  -- An escape sequence is never read twice: the character that filter_ansi returns has been taken off
  -- the text.
  mutual
    unfolding filter_ansi escaped behind_ss3 collecting

    filter_ansi-length : (cs : Bytes) → length (filter_ansi match_end cs).1 ≤ length cs - 1
    filter_ansi-length [] = omega arith
    filter_ansi-length (c ∷ cs) = ground (arith, escaped-length cs)

    escaped-length : (cs : Bytes) → length (escaped match_end cs).1 ≤ length cs - 1
    escaped-length [] = omega arith
    escaped-length (c ∷ cs) =
        ground
          (arith, behind_ss3-length cs, collecting-length (esc ∷ c ∷ []) cs, filter_ansi-length cs)

    behind_ss3-length : (cs : Bytes) → length (behind_ss3 match_end cs).1 ≤ length cs - 1
    behind_ss3-length [] = omega arith
    behind_ss3-length (c ∷ cs) = omega (arith, filter_ansi-length cs)

    collecting-length : (buf cs : Bytes) → length (collecting match_end buf cs).1 ≤ length cs - 1
    collecting-length buf [] = omega arith
    collecting-length buf (c ∷ cs) =
        ground (arith, collecting-length (buf ++ (c ∷ [])) cs, filter_ansi-length cs)

  module _ (g : Graphemes) where
    -- a round of the loop behind the call of filter_ansi, where `next` is the rounds that follow
    unfoldable pub read_round :
        (LineEditor → Bytes → Bytes × ReadOutcome × Bytes)
        → LineEditor
        → Option ℕ × Bytes
        → Bytes × ReadOutcome × Bytes
    read_round next e (none, rest) = ([], returned none, rest)
    read_round next e (some c, rest) = elim ((c == lf || c == nul) && is_blank e.command) [
      | true ↦ next e rest
      | false ↦
          let (echo, command, e') = feed g e c in
          elim command [
            | some line ↦ (echo, returned (some line), rest)
            | none ↦ let (more, reply, left) = next e' rest in (echo ++ more, reply, left)
          ]
    ]

    -- readline_async: what is echoed, the reply, and what is left to read. The fuel bounds the rounds
    -- of the loop.
    unfoldable pub readline_async : ℕ → LineEditor → Bytes → Bytes × ReadOutcome × Bytes
    unfolding read_round
    readline_async zero e cs = ([], reading, cs)
    readline_async (suc fuel) e cs = read_round (readline_async fuel) e (filter_ansi match_end cs)
