-- ===== src/Examples/Typing.antt =====
-- A line that is typed with an arrow and a function key in it, and the same line without them.
use telnetlib.Prelude.{
  ℕ, [], ◌∷◌, ◌&&◌, Option, none, some, if◌then◌else◌, ◌==◌, nat_eq, refl, Bytes, length, leb, elem,
}
use telnetlib.Session.{pos}
use telnetlib.ServerShell.Escapes.{esc, ss3, collect}
use telnetlib.ServerShell.LineEditor.{Graphemes, new_editor, cr}
use telnetlib.ServerShell.Readline.{readline_async}
use telnetlib.ServerShell.Readline.Shown.{
  Alike, last_char, Shows, at_end, char, application, sequence, readline_async-Shows,
}

-- `ESC [` with one final character, and two characters with ESC
abbrev csi_end : Bytes → Option ℕ
csi_end [] = none
csi_end (a ∷ []) = none
csi_end (a ∷ b ∷ []) = if a == esc then some 2 else none
csi_end (a ∷ b ∷ c ∷ cs) =
    if a == esc && b == b'[' then (if leb 64 c then some 3 else none) else none

abbrev one_wide : Graphemes
one_wide = record { wcswidth = λ text. pos (length text); last_of = λ text. b'a' ∷ [] }

abbrev ls_line : Bytes
ls_line = b'l' ∷ b's' ∷ cr ∷ []

-- an arrow behind the first letter, and F1 behind the second
abbrev ls_keys : Bytes
ls_keys = b'l' ∷ esc ∷ b'[' ∷ b'A' ∷ b's' ∷ esc ∷ ss3 ∷ b'P' ∷ cr ∷ []

ls_line-Shows : Shows csi_end ls_line ls_line
ls_line-Shows = char _ _ _ refl (char _ _ _ refl (char _ _ _ refl at_end))

ls_keys-Shows : Shows csi_end ls_keys ls_line
unfolding collect elem
ls_keys-Shows = char _ _ _ refl (
    sequence b'[' (b'A' ∷ []) _ _ refl refl (last_char _ _ refl)
      (char _ _ _ refl (application _ _ _ (char _ _ _ refl at_end))))

readline_async-Shows_example :
    Alike
      (readline_async csi_end one_wide 9 (new_editor 0) ls_keys)
      (readline_async csi_end one_wide 9 (new_editor 0) ls_line)
readline_async-Shows_example =
    readline_async-Shows csi_end one_wide 9 (new_editor 0) ls_keys ls_line ls_line ls_keys-Shows
      ls_line-Shows
