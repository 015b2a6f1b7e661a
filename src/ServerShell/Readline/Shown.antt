-- ===== src/ServerShell/Readline/Shown.antt =====
-- Escape sequences among what a client types leave no trace in the line that the shell reads.
use telnetlib.Prelude.{
  ℕ, zero, suc, true, false, [], ◌∷◌, ◌++◌, Option, none, some, ◌==◌, nat_eq, ◌≡◌, refl, Bytes,
  elem, arith,
}
use telnetlib.ServerShell.Escapes.{
  open_still, closed, esc, seq_starters, ss3, collect, filter_ansi, escaped, behind_ss3, collecting,
}
use telnetlib.ServerShell.LineEditor.{Graphemes, LineEditor, feed}
use telnetlib.ServerShell.Readline.{ReadOutcome, read_round, readline_async}

-- the same echo and the same reply
abbrev pub Alike : Bytes × ReadOutcome × Bytes → Bytes × ReadOutcome × Bytes → Type 0
Alike (echo, reply, rest) (echo', reply', rest') = (echo ≡ echo') × (reply ≡ reply')

module _ (match_end : Bytes → Option ℕ) where
  -- A sequence that the pattern recognises with its last character, and not before.
  pub data Completes : Bytes → Bytes → Type 0 where
    last_char :
        (buf : Bytes) (c : ℕ)
        → collect match_end (buf ++ (c ∷ [])) ≡ closed
        → Completes buf (c ∷ [])
    more_chars :
        (buf : Bytes) (c : ℕ) (cs : Bytes)
        → collect match_end (buf ++ (c ∷ [])) ≡ open_still
        → Completes (buf ++ (c ∷ [])) cs
        → Completes buf (c ∷ cs)

  -- What is sent, and the characters of it that stand outside escape sequences.
  pub data Shows : Bytes → Bytes → Type 0 where
    at_end : Shows [] []
    char :
        (c : ℕ) (sent shown : Bytes)
        → (c == esc) ≡ false
        → Shows sent shown
        → Shows (c ∷ sent) (c ∷ shown)
    application :
        (c : ℕ) (sent shown : Bytes) → Shows sent shown → Shows (esc ∷ ss3 ∷ c ∷ sent) shown
    short :
        (c n : ℕ) (sent shown : Bytes)
        → (c == ss3) ≡ false
        → elem c seq_starters ≡ false
        → match_end (esc ∷ c ∷ []) ≡ some n
        → Shows sent shown
        → Shows (esc ∷ c ∷ sent) shown
    sequence :
        (c : ℕ) (body sent shown : Bytes)
        → (c == ss3) ≡ false
        → elem c seq_starters ≡ true
        → Completes (esc ∷ c ∷ []) body
        → Shows sent shown
        → Shows (esc ∷ c ∷ (body ++ sent)) shown

  -- what a call of filter_ansi returns on such a text
  data Reads : Option ℕ × Bytes → Bytes → Type 0 where
    nothing : (rest : Bytes) → Reads (none, rest) []
    next_char : (c : ℕ) (sent shown : Bytes) → Shows sent shown → Reads (some c, sent) (c ∷ shown)

  collecting-Completes :
      (buf body sent : Bytes)
      → Completes buf body
      → collecting match_end buf (body ++ sent) ≡ filter_ansi match_end sent
  unfolding collecting
  collecting-Completes buf body sent (last_char _ c h) = rw (collecting, h) refl
  collecting-Completes buf body sent (more_chars _ c cs h k) =
      rw (collecting, h) (collecting-Completes (buf ++ (c ∷ [])) cs sent k)

  filter_ansi-Reads :
      (sent shown : Bytes) → Shows sent shown → Reads (filter_ansi match_end sent) shown
  unfolding filter_ansi escaped behind_ss3
  filter_ansi-Reads sent shown at_end = nothing []
  filter_ansi-Reads sent shown (char c cs ds h k) = rw (filter_ansi, h) (next_char c cs ds k)
  filter_ansi-Reads sent shown (application c cs ds k) = filter_ansi-Reads cs ds k
  filter_ansi-Reads sent shown (short c n cs ds h i j k) =
      rw (filter_ansi, escaped, h, i, j) (filter_ansi-Reads cs ds k)
  filter_ansi-Reads sent shown (sequence c body cs ds h i j k) =
      rw (filter_ansi, escaped, h, i, collecting-Completes (esc ∷ c ∷ []) body cs j)
        (filter_ansi-Reads cs ds k)

  module _ (g : Graphemes) where
    -- A round on two texts that show the same, where the rounds that follow do not tell them apart.
    read_round-Reads :
        (next : LineEditor → Bytes → Bytes × ReadOutcome × Bytes) (e : LineEditor)
        (r r' : Option ℕ × Bytes) (shown : Bytes)
        → ((e' : LineEditor) (sent sent' shown' : Bytes)
            → Shows sent shown'
            → Shows sent' shown'
            → Alike (next e' sent) (next e' sent'))
        → Reads r shown
        → Reads r' shown
        → Alike (read_round match_end g next e r) (read_round match_end g next e r')
    unfolding read_round
    read_round-Reads next e r r' shown ih (nothing _) (nothing _) = (refl, refl)
    read_round-Reads next e r r' shown ih (next_char c a b k) (next_char d a' b' k') =
        grind (arith, ih e a a' b k k', ih (feed g e c).2 a a' b k k')

    -- Two texts that show the same characters, whatever escape sequences stand among them, are one
    -- to readline_async: it echoes the same, and its reply is the same, in as many rounds.
    pub readline_async-Shows :
        (fuel : ℕ) (e : LineEditor) (sent sent' shown : Bytes)
        → Shows sent shown
        → Shows sent' shown
        → Alike (readline_async match_end g fuel e sent) (readline_async match_end g fuel e sent')
    unfolding readline_async
    readline_async-Shows zero e sent sent' shown k k' = (refl, refl)
    readline_async-Shows (suc fuel) e sent sent' shown k k' =
        read_round-Reads (readline_async match_end g fuel) e _ _ shown (readline_async-Shows fuel)
          (filter_ansi-Reads sent shown k) (filter_ansi-Reads sent' shown k')
