-- ===== src/ServerShell/Escapes.antt =====
-- server_shell.py, filter_ansi: the next character that is read outside an escape sequence. The
-- characters that the reader still delivers are a list, and its end is the end of the stream.
use telnetlib.Prelude.{
  ℕ, zero, suc, true, false, [], ◌∷◌, ◌++◌, Option, none, some, if◌then◌else◌, ◌==◌, nat_eq, Bytes,
  length, elem, ltb,
}

abbrev pub esc : ℕ
esc = 27

-- _SEQ_STARTERS
abbrev pub seq_starters : Bytes
seq_starters = b'[' ∷ b']' ∷ b')' ∷ b'P' ∷ b'_' ∷ b'^' ∷ b'(' ∷ []

-- _SS3
abbrev pub ss3 : ℕ
ss3 = b'O'

-- buf[n]
abbrev pub char_at : Bytes → ℕ → Option ℕ
char_at [] n = none
char_at (c ∷ cs) zero = some c
char_at (c ∷ cs) (suc n) = char_at cs n

-- What a sequence that is being collected says of its next character: there is more of it, it is
-- over, or a character behind it has been read.
pub data Collected : Type 0 where
  open_still closed : Collected
  passed : Option ℕ → Collected

-- The end of a match of ZERO_WIDTH_PATTERN, a pattern of wcwidth, at the start of a text
module _ (match_end : Bytes → Option ℕ) where
  -- one round of the loop on `buf`, behind `buf += seq_char`
  unfoldable pub collect : Bytes → Collected
  collect buf =
      let end = match_end buf in
      elim end [
        | none ↦ (if ltb (length buf) 256 then open_still else closed)
        | some n ↦
            if ltb 2 n
            then (if ltb n (length buf) then passed (char_at buf n) else closed)
            else if ltb (length buf) 256
            then open_still
            else closed
      ]

  unfoldable mutual
    unfolding collect

    -- the loop, with the next character
    pub filter_ansi : Bytes → Option ℕ × Bytes
    filter_ansi [] = (none, [])
    filter_ansi (c ∷ cs) = elim (c == esc) [ true ↦ escaped cs | false ↦ (some c, cs) ]

    -- behind ESC
    pub escaped : Bytes → Option ℕ × Bytes
    escaped [] = (none, [])
    escaped (c ∷ cs) = elim (c == ss3) [
      | true ↦ behind_ss3 cs
      | false ↦ elim (elem c seq_starters) [
        | true ↦ collecting (esc ∷ c ∷ []) cs
        | false ↦ elim (match_end (esc ∷ c ∷ [])) [ none ↦ (some c, cs) | some n ↦ filter_ansi cs ]
      ]
    ]

    -- the last character of an SS3 sequence
    pub behind_ss3 : Bytes → Option ℕ × Bytes
    behind_ss3 [] = (none, [])
    behind_ss3 (c ∷ cs) = filter_ansi cs

    -- the loop on `buf`
    pub collecting : Bytes → Bytes → Option ℕ × Bytes
    collecting buf [] = (none, [])
    collecting buf (c ∷ cs) = elim (collect (buf ++ (c ∷ []))) [
      | open_still ↦ collecting (buf ++ (c ∷ [])) cs
      | closed ↦ filter_ansi cs
      | passed o ↦ (o, cs)
    ]
