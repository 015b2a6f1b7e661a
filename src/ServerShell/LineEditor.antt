-- ===== src/ServerShell/LineEditor.antt =====
-- server_shell.py, class _LineEditor, with _backspace_grapheme and _visible_width. A text is a list of
-- code points; the library wcwidth is a parameter.
pub mod Terminated
pub mod Width
use telnetlib.Prelude.{
  ℕ, zero, suc, ◌+◌, ◌-◌, max, Bool, true, false, ◌&&◌, ◌||◌, not, List, [], ◌∷◌, ◌++◌, Option,
  none, some, if◌then◌else◌, ◌==◌, nat_eq, Bytes, length, take, ltb, leb,
}
use telnetlib.Session.{ℤ, pos, negsuc}

-- wcwidth.wcswidth, and the first item of iter_graphemes_reverse of a text that is not empty
pub record Graphemes : Type 0 where
  pub wcswidth : Bytes → ℤ
  pub last_of : Bytes → Bytes

pub record LineEditor : Type 0 where
  pub command : Bytes
  pub last_char : Option ℕ
  pub max_visible_width : ℕ

-- _LineEditor.__init__
abbrev pub new_editor : ℕ → LineEditor
new_editor width = record { command = []; last_char = none; max_visible_width = width }

abbrev pub cr : ℕ
cr = 13

abbrev pub lf : ℕ
lf = 10

abbrev pub nul : ℕ
nul = 0

-- "\b"
abbrev pub bs : ℕ
bs = 8

abbrev pub del : ℕ
del = 127

abbrev pub to_nat : ℤ → ℕ
to_nat (pos n) = n
to_nat (negsuc n) = 0

-- "\b \b" * n
abbrev pub erase : ℕ → Bytes
erase zero = []
erase (suc n) = bs ∷ b' ' ∷ bs ∷ erase n

-- text[: len(text) - n], where a negative end counts from the end
abbrev pub without_last : Bytes → ℕ → Bytes
without_last text n =
    if leb n (length text)
    then take (length text - n) text
    else take (length text + length text - n) text

abbrev pub is_after_cr : Option ℕ → Bool
is_after_cr none = false
is_after_cr (some c) = c == cr

module _ (g : Graphemes) where
  -- _visible_width
  unfoldable pub visible_width : Bytes → ℕ
  visible_width text = to_nat (g.wcswidth text)

  -- _backspace_grapheme
  unfoldable pub backspace_grapheme : Bytes → Bytes × Bytes
  backspace_grapheme [] = ([], [])
  backspace_grapheme (c ∷ cs) =
      let last = g.last_of (c ∷ cs) in
      (without_last (c ∷ cs) (length last), erase (max (to_nat (g.wcswidth last)) 1))

  unfoldable pub is_too_wide : LineEditor → ℕ → Bool
  unfolding visible_width
  is_too_wide e c =
      not (e.max_visible_width == 0)
      && ltb e.max_visible_width (visible_width (e.command ++ (c ∷ [])))

  -- _LineEditor.feed: what is echoed, the command where a line is complete, and the editor.
  unfoldable pub feed : LineEditor → ℕ → Bytes × Option Bytes × LineEditor
  unfolding backspace_grapheme
  feed e c =
      let seen = record e { last_char = some c } in
      if (c == lf || c == nul) && is_after_cr e.last_char
      then ([], none, seen)
      else if c == cr || c == lf
      then ([], some e.command, record seen { command = [] })
      else if c == bs || c == del
      then (let (left, echo) = backspace_grapheme e.command in
          (echo, none, record seen { command = left }))
      else if is_too_wide e c
      then ([], none, seen)
      else (c ∷ [], none, record seen { command = e.command ++ (c ∷ []) })

  -- `readline`: the commands that the characters of a text complete, one after the other.
  unfoldable pub commands : LineEditor → Bytes → List Bytes × LineEditor
  commands e [] = ([], e)
  commands e (c ∷ cs) =
      let (echo, command, e') = feed e c in
      let (found, last) = commands e' cs in
      ((elim command [ none ↦ found | some line ↦ line ∷ found ]), last)
