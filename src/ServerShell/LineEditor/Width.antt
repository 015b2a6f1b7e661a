-- ===== src/ServerShell/LineEditor/Width.antt =====
-- The limit of width of the line editor of server_shell.py.
use mathlib.Core.Path.{subst}
use telnetlib.Prelude.{
  ℕ, ◌≤◌, ◌-◌, Bool, true, false, ◌||◌, ◌&&◌, ◌++◌, [], ◌∷◌, none, some, Bool-cases, inl, inr, sym,
  ap, ◌∙◌, Option, List, ◌==◌, nat_eq, ◌≡◌, refl, All, Bytes, leb, zero, suc, length, take, arith,
}
use telnetlib.Session.{pos}
use telnetlib.ServerShell.LineEditor.{
  Graphemes, LineEditor, cr, lf, nul, bs, del, is_after_cr, is_too_wide, visible_width, to_nat,
  backspace_grapheme, feed, commands,
}

-- Whether a text is no wider than a limit, where 0 is none.
abbrev pub fits : Graphemes → ℕ → Bytes → Bool
fits g width text = width == 0 || leb (visible_width g text) width

abbrev pub is_printable : ℕ → Bool
is_printable c = leb 32 c && leb c 126

abbrev pub IsPrintable : Bytes → Type 0
IsPrintable text = All (λ c. is_printable c ≡ true) text

-- what is typed: printable ASCII, the ends of a line, and the two characters that erase
abbrev pub is_typed : ℕ → Bool
is_typed c = is_printable c || c == cr || c == lf || c == bs || c == del

IsPrintable-snoc :
    (text : Bytes) (c : ℕ)
    → IsPrintable text
    → is_printable c ≡ true
    → IsPrintable (text ++ (c ∷ []))
IsPrintable-snoc [] c all h = (h, tt)
IsPrintable-snoc (d ∷ ds) c (p, ps) h = (p, IsPrintable-snoc ds c ps h)

IsPrintable-take : (n : ℕ) (text : Bytes) → IsPrintable text → IsPrintable (take n text)
IsPrintable-take zero text all = tt
IsPrintable-take (suc n) [] all = tt
IsPrintable-take (suc n) (c ∷ cs) (p, ps) = (p, IsPrintable-take n cs ps)

length-take_le : (n : ℕ) (text : Bytes) → length (take n text) ≤ length text
length-take_le zero text = omega arith
length-take_le (suc n) [] = omega arith
length-take_le (suc n) (c ∷ cs) = omega (arith, length-take_le n cs)

-- What the editor relies on of wcwidth, for printable ASCII: a text is as wide as it is long, and its
-- last grapheme is one character.
module _ (g : Graphemes)
    (ascii_width : (text : Bytes) → IsPrintable text → g.wcswidth text ≡ pos (length text))
    (ascii_last : (c : ℕ) (cs : Bytes)
      → IsPrintable (c ∷ cs)
      → length (g.last_of (c ∷ cs)) ≡ 1) where
  width-length : (text : Bytes) → IsPrintable text → visible_width g text ≡ length text
  unfolding visible_width
  width-length text all = ap to_nat (ascii_width text all)

  erased-take :
      (c : ℕ) (cs : Bytes)
      → IsPrintable (c ∷ cs)
      → (backspace_grapheme g (c ∷ cs)).0 ≡ take (length (c ∷ cs) - 1) (c ∷ cs)
  unfolding backspace_grapheme
  erased-take c cs all = rw (ascii_last c cs all) (ground arith)

  erased-IsPrintable : (text : Bytes) → IsPrintable text → IsPrintable (backspace_grapheme g text).0
  unfolding backspace_grapheme
  erased-IsPrintable [] all = tt
  erased-IsPrintable (c ∷ cs) all =
      subst IsPrintable (sym (erased-take c cs all))
        (IsPrintable-take (length (c ∷ cs) - 1) (c ∷ cs) all)

  erased_shorter :
      (text : Bytes) → IsPrintable text → length (backspace_grapheme g text).0 ≤ length text
  unfolding backspace_grapheme
  erased_shorter [] all = omega arith
  erased_shorter (c ∷ cs) all =
      subst (λ t. length t ≤ length (c ∷ cs)) (sym (erased-take c cs all))
        (length-take_le (length (c ∷ cs) - 1) (c ∷ cs))

  shrinks :
      (text : Bytes)
      → IsPrintable text
      → visible_width g (backspace_grapheme g text).0 ≤ visible_width g text
  shrinks text all =
      rw (width-length text all, width-length _ (erased-IsPrintable text all))
        (erased_shorter text all)

  wide_enough :
      (e : LineEditor) (c : ℕ)
      → is_too_wide g e c ≡ false
      → fits g e.max_visible_width (e.command ++ (c ∷ [])) ≡ true
  unfolding is_too_wide visible_width
  wide_enough e c l = ground (arith, l)

  feed-fits :
      (e : LineEditor) (c : ℕ)
      → IsPrintable e.command
      → fits g e.max_visible_width e.command ≡ true
      → fits g e.max_visible_width (feed g e c).2.command ≡ true
  unfolding feed
  feed-fits e c all f = elim (Bool-cases ((c == lf || c == nul) && is_after_cr e.last_char)) [
    | inl s ↦ rw s f
    | inr n ↦ elim (Bool-cases (c == cr || c == lf)) [
      | inl s ↦ rw (n, s) (ground (arith, width-length [] tt))
      | inr m ↦ elim (Bool-cases (c == bs || c == del)) [
        | inl s ↦ rw (n, m, s) (ground (arith, shrinks e.command all))
        | inr k ↦ elim (Bool-cases (is_too_wide g e c)) [
          | inl s ↦ rw (n, m, k, s) f
          | inr l ↦ rw (n, m, k, l) (wide_enough e c l)
        ]
      ]
    ]
  ]

  feed-IsPrintable :
      (e : LineEditor) (c : ℕ)
      → is_typed c ≡ true
      → IsPrintable e.command
      → IsPrintable (feed g e c).2.command
  unfolding feed
  feed-IsPrintable e c t all =
      elim (Bool-cases ((c == lf || c == nul) && is_after_cr e.last_char)) [
        | inl s ↦ rw s all
        | inr n ↦ elim (Bool-cases (c == cr || c == lf)) [
          | inl s ↦ rw (n, s) tt
          | inr m ↦ elim (Bool-cases (c == bs || c == del)) [
            | inl s ↦ rw (n, m, s) (erased-IsPrintable e.command all)
            | inr k ↦ elim (Bool-cases (is_too_wide g e c)) [
              | inl s ↦ rw (n, m, k, s) all
              | inr l ↦ rw (n, m, k, l) (IsPrintable-snoc e.command c all (ground (arith, t, m, k)))
            ]
          ]
        ]
      ]

  -- A line that `feed` completes is the text that it held.
  feed-line :
      (e : LineEditor) (c : ℕ) (line : Bytes) → (feed g e c).1 ≡ some line → line ≡ e.command
  unfolding feed
  feed-line e c line h = ground (arith, h)

  feed-width : (e : LineEditor) (c : ℕ) → (feed g e c).2.max_visible_width ≡ e.max_visible_width
  unfolding feed
  feed-width e c = ground arith

  collected :
      (width : ℕ) (command : Option Bytes) (found : List Bytes)
      → ((line : Bytes) → command ≡ some line → fits g width line ≡ true)
      → All (λ line. fits g width line ≡ true) found
      → All
          (λ line. fits g width line ≡ true)
          (elim command [ none ↦ found | some line ↦ line ∷ found ])
  collected width none found h all = all
  collected width (some line) found h all = (h line refl, all)

  -- Where wcwidth finds a printable ASCII text as wide as it is long, and its last grapheme to be one
  -- character: the editor's command never comes to be wider than the limit, if there is one, and
  -- neither is any line that it completes, whatever is typed of printable ASCII, CR, LF, backspace and
  -- DEL, from a command of printable ASCII that is not wider.
  pub commands-fits :
      (text : Bytes) (width : ℕ) (e : LineEditor)
      → All (λ c. is_typed c ≡ true) text
      → e.max_visible_width ≡ width
      → IsPrintable e.command
      → fits g width e.command ≡ true
      → All (λ line. fits g width line ≡ true) (commands g e text).0
        × (fits g width (commands g e text).1.command ≡ true)
  unfolding commands
  commands-fits [] width e typed h p f = (tt, f)
  commands-fits (c ∷ cs) width e (t, ts) h p f =
      let held = ap (λ w. fits g w e.command) h ∙ f in
      let holds = ap (λ w. fits g w (feed g e c).2.command) (sym h) ∙ feed-fits e c p held in
      let (all, last) =
        commands-fits cs width (feed g e c).2 ts (feed-width e c ∙ h) (feed-IsPrintable e c t p)
          holds in
      (
        collected width (feed g e c).1 _
            (λ line done. ap (fits g width) (feed-line e c line done) ∙ f) all,
        last,
      )
