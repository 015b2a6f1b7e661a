-- ===== src/ServerShell/LineEditor/Terminated.antt =====
-- The lines that a client types reach the shell of server_shell.py, however it ends them.
use telnetlib.Prelude.{
  ℕ, Bool, true, false, ◌||◌, not, List, [], ◌∷◌, ◌++◌, append-nil, append_assoc, none, some, ◌==◌,
  nat_eq, ◌≡◌, refl, sym, ap, ◌∙◌, All, Bytes, arith,
}
use telnetlib.ServerShell.LineEditor.{
  Graphemes, LineEditor, cr, lf, nul, bs, del, is_after_cr, is_too_wide, visible_width, feed,
  commands,
}

-- A character that the editor takes as it is.
abbrev pub is_plain : ℕ → Bool
is_plain c = not (c == cr || c == lf || c == nul || c == bs || c == del)

-- The ways to end a line.
pub data Ending : Type 0 where
  by_lf by_cr_lf by_cr_nul : Ending

abbrev pub ending_bytes : Ending → Bytes
ending_bytes by_lf = lf ∷ []
ending_bytes by_cr_lf = cr ∷ lf ∷ []
ending_bytes by_cr_nul = cr ∷ nul ∷ []

-- what is typed
abbrev pub typed : List (Bytes × Ending) → Bytes
typed [] = []
typed ((line, ending) ∷ lines) = line ++ (ending_bytes ending ++ typed lines)

-- the lines
abbrev pub texts : List (Bytes × Ending) → List Bytes
texts [] = []
texts ((line, ending) ∷ lines) = line ∷ texts lines

-- Without a limit, and not in the middle of an end of line.
pub record IsReady (e : LineEditor) : Type 0 where
  pub settled : is_after_cr e.last_char ≡ false
  pub unlimited : e.max_visible_width ≡ 0

-- the editor behind a text that it takes as it is
after : LineEditor → Bytes → LineEditor
after e [] = e
after e (c ∷ cs) = after (record e { last_char = some c; command = e.command ++ (c ∷ []) }) cs

after-IsReady :
    (line : Bytes) (e : LineEditor)
    → IsReady e
    → All (λ c. is_plain c ≡ true) line
    → IsReady (after e line)
unfolding after
after-IsReady [] e ready plain = ready
after-IsReady (c ∷ cs) e ready (p, ps) =
    after-IsReady cs _ (record { settled = ground (arith, p); unlimited = ready.unlimited }) ps

after-command : (line : Bytes) (e : LineEditor) → (after e line).command ≡ e.command ++ line
unfolding after
after-command [] e = sym (append-nil e.command)
after-command (c ∷ cs) e = after-command cs _ ∙ append_assoc e.command (c ∷ []) cs

-- the editor behind an end of line
abbrev ended : Ending → LineEditor → LineEditor
ended by_lf e = record e { command = []; last_char = some lf }
ended by_cr_lf e = record e { command = []; last_char = some lf }
ended by_cr_nul e = record e { command = []; last_char = some nul }

ended-IsReady : (ending : Ending) (e : LineEditor) → IsReady e → IsReady (ended ending e)
ended-IsReady by_lf e ready = record { settled = refl; unlimited = ready.unlimited }
ended-IsReady by_cr_lf e ready = record { settled = refl; unlimited = ready.unlimited }
ended-IsReady by_cr_nul e ready = record { settled = refl; unlimited = ready.unlimited }

ended-command : (ending : Ending) (e : LineEditor) → (ended ending e).command ≡ []
ended-command by_lf e = refl
ended-command by_cr_lf e = refl
ended-command by_cr_nul e = refl

module _ (g : Graphemes) where
  commands-silent :
      (e e' : LineEditor) (c : ℕ) (echo cs : Bytes)
      → feed g e c ≡ (echo, none, e')
      → (commands g e (c ∷ cs)).0 ≡ (commands g e' cs).0
  unfolding commands
  commands-silent e e' c echo cs h =
      ap (λ r. elim r.1 [ none ↦ (commands g r.2 cs).0 | some line ↦ line ∷ (commands g r.2 cs).0 ])
        h

  commands-line :
      (e e' : LineEditor) (c : ℕ) (echo line cs : Bytes)
      → feed g e c ≡ (echo, some line, e')
      → (commands g e (c ∷ cs)).0 ≡ line ∷ (commands g e' cs).0
  unfolding commands
  commands-line e e' c echo line cs h =
      ap (λ r. elim r.1 [ none ↦ (commands g r.2 cs).0 | some line ↦ line ∷ (commands g r.2 cs).0 ])
        h

  feed-plain :
      (e : LineEditor) (c : ℕ)
      → IsReady e
      → is_plain c ≡ true
      → feed g e c
        ≡ (c ∷ [], none, record e { last_char = some c; command = e.command ++ (c ∷ []) })
  unfolding feed is_too_wide visible_width
  feed-plain e c ready plain = ground (arith, ready.settled, ready.unlimited)

  commands-plain :
      (line rest : Bytes) (e : LineEditor)
      → IsReady e
      → All (λ c. is_plain c ≡ true) line
      → (commands g e (line ++ rest)).0 ≡ (commands g (after e line) rest).0
  unfolding after
  commands-plain [] rest e ready plain = refl
  commands-plain (c ∷ cs) rest e ready (p, ps) =
      commands-silent e _ c (c ∷ []) (cs ++ rest) (feed-plain e c ready p)
      ∙ commands-plain cs rest _
          (record { settled = ground (arith, p); unlimited = ready.unlimited }) ps

  -- An ending completes the line once, and leaves an editor that is ready for the next.
  commands-ending :
      (ending : Ending) (rest : Bytes) (e : LineEditor)
      → IsReady e
      → (commands g e (ending_bytes ending ++ rest)).0
        ≡ e.command ∷ (commands g (ended ending e) rest).0
  unfolding feed
  commands-ending by_lf rest e ready =
      commands-line e (record e { last_char = some lf; command = [] }) lf [] e.command rest
        (ground (arith, ready.settled))
  commands-ending by_cr_lf rest e ready =
      commands-line e (record e { last_char = some cr; command = [] }) cr [] e.command (lf ∷ rest)
        (ground (arith, ready.settled))
      ∙ ap (λ found. e.command ∷ found) (commands-silent _ _ lf [] rest refl)
  commands-ending by_cr_nul rest e ready =
      commands-line e (record e { last_char = some cr; command = [] }) cr [] e.command (nul ∷ rest)
        (ground (arith, ready.settled))
      ∙ ap (λ found. e.command ∷ found) (commands-silent _ _ nul [] rest refl)

  -- From an editor that holds nothing, has no limit of width and has not just read a CR, lines of
  -- characters that are neither CR, LF, NUL, backspace nor DEL are read back as typed, one command
  -- for each, whether each of them ends by LF, by CR LF or by CR NUL.
  pub commands-typed :
      (lines : List (Bytes × Ending)) (e : LineEditor)
      → IsReady e
      → e.command ≡ []
      → All (λ l. All (λ c. is_plain c ≡ true) l.0) lines
      → (commands g e (typed lines)).0 ≡ texts lines
  unfolding commands
  commands-typed [] e ready empty plain = refl
  commands-typed ((line, ending) ∷ lines) e ready empty (p, ps) =
      commands-plain line (ending_bytes ending ++ typed lines) e ready p
      ∙ (commands-ending ending (typed lines) (after e line) (after-IsReady line e ready p)
          ∙ (ap (λ text. text ∷ (commands g (ended ending (after e line)) (typed lines)).0)
                (after-command line e ∙ ap (λ text. text ++ line) empty)
              ∙ ap (λ found. line ∷ found)
                  (commands-typed lines (ended ending (after e line))
                    (ended-IsReady ending _ (after-IsReady line e ready p)) (ended-command ending _)
                    ps)))
