-- ===== src/Shell/InputFilter/Sequences.antt =====
-- Which sequence stands at the front of a buffer, and of one with more bytes.
use telnetlib.Prelude.{
  ℕ, zero, suc, ◌≤◌, ◌<◌, Bool, true, false, not, ◌&&◌, [], ◌∷◌, ◌++◌, none, some, ◌≡◌, inl, inr,
  refl, arith, Bytes, length, length-append, drop, ltb, All, Bool-cases, ◌∙◌, nat_eq,
}
use telnetlib.Dict.{Dict}
use telnetlib.Reader.Reads.{starts_with}
use telnetlib.Reader.Search.{starts_with-append, starts_with-long}
use telnetlib.Shell.InputFilter.{is_partial, match_sequence}

-- Of two that stand at the front, the shorter stands at the front of the longer.
starts_with_both :
    (p q buf : Bytes)
    → starts_with p buf ≡ true
    → starts_with q buf ≡ true
    → length p ≤ length q
    → starts_with p q ≡ true
unfolding starts_with
starts_with_both [] q buf hp hq h = refl
starts_with_both (x ∷ p) [] buf hp hq h = absurd (omega arith)
starts_with_both (x ∷ p) (y ∷ q) [] hp hq h = ground (arith, hp)
starts_with_both (x ∷ p) (y ∷ q) (c ∷ cs) hp hq h = ground (arith, hp, hq, starts_with_both p q cs)

starts_with_self : (buf more : Bytes) → starts_with buf (buf ++ more) ≡ true
unfolding starts_with
starts_with_self [] more = refl
starts_with_self (c ∷ cs) more = ground (arith, starts_with_self cs more)

drop-append :
    (n : ℕ) (buf more : Bytes) → n ≤ length buf → drop n (buf ++ more) ≡ drop n buf ++ more
drop-append zero buf more h = refl
drop-append (suc n) [] more h = absurd (omega arith)
drop-append (suc n) (c ∷ cs) more h = drop-append n cs more (omega arith)

pub length-drop : (n : ℕ) (buf : Bytes) → 0 < n → 0 < length buf → length (drop n buf) < length buf
length-drop zero buf p h = absurd (omega arith)
length-drop (suc n) [] p h = absurd (omega arith)
length-drop (suc zero) (c ∷ cs) p h = omega arith
length-drop (suc (suc n)) (c ∷ []) p h = omega arith
length-drop (suc (suc n)) (c ∷ d ∷ cs) p h =
    omega (arith, length-drop (suc n) (d ∷ cs) (omega arith) (omega arith))

-- No sequence is empty, and none stands at the front of one before it.
abbrev pub AreSeparate : Dict Bytes Bytes → Type 0
AreSeparate [] = Unit
AreSeparate ((seq, repl) ∷ seqs) =
    (0 < length seq) × All (λ other. starts_with other.0 seq ≡ false) seqs × AreSeparate seqs

-- A sequence that stands at the front only with more bytes is longer than the buffer.
longer_than :
    (seq buf more : Bytes)
    → starts_with seq buf ≡ false
    → starts_with seq (buf ++ more) ≡ true
    → length buf < length seq
unfolding starts_with
longer_than [] buf more n s = ground (arith, n)
longer_than (x ∷ seq) [] more n s = omega arith
longer_than (x ∷ seq) (c ∷ cs) more n s = ground (arith, n, s, longer_than seq cs more)

pub match_none :
    (seqs : Dict Bytes Bytes) (buf more : Bytes)
    → match_sequence seqs buf ≡ none
    → is_partial seqs buf ≡ false
    → match_sequence seqs (buf ++ more) ≡ none
unfolding match_sequence is_partial
match_none [] buf more m p = refl
match_none ((seq, repl) ∷ seqs) buf more m p = elim (Bool-cases (starts_with seq buf)) [
  | inl s ↦ ground (arith, m, s)
  | inr s ↦ elim (Bool-cases (starts_with seq (buf ++ more))) [
    | inl t ↦
        let long = longer_than seq buf more s t in
        let both =
          starts_with_both buf seq (buf ++ more) (starts_with_self buf more) t
            (omega (arith, long)) in
        ground (arith, p, both, long)
    | inr t ↦ ground (arith, s, t, m, p, match_none seqs buf more)
  ]
]

-- the same as a test
abbrev apart_from : Bytes → Dict Bytes Bytes → Bool
apart_from seq [] = true
apart_from seq ((other, repl) ∷ seqs) = not (starts_with other seq) && apart_from seq seqs

abbrev pub are_separate : Dict Bytes Bytes → Bool
are_separate [] = true
are_separate ((seq, repl) ∷ seqs) = ltb 0 (length seq) && (apart_from seq seqs && are_separate seqs)

apart_from_sound :
    (seq : Bytes) (seqs : Dict Bytes Bytes)
    → apart_from seq seqs ≡ true
    → All (λ other. starts_with other.0 seq ≡ false) seqs
apart_from_sound seq [] h = tt
apart_from_sound seq ((other, repl) ∷ seqs) h =
    (ground (arith, h), apart_from_sound seq seqs (ground (arith, h)))

pub are_separate_sound : (seqs : Dict Bytes Bytes) → are_separate seqs ≡ true → AreSeparate seqs
are_separate_sound [] h = tt
are_separate_sound ((seq, repl) ∷ seqs) h = (
  ground (arith, h),
  apart_from_sound seq seqs (ground (arith, h)),
  are_separate_sound seqs (ground (arith, h)),
)

starts_with_less : (p q buf : Bytes) → starts_with (p ++ q) buf ≡ true → starts_with p buf ≡ true
unfolding starts_with
starts_with_less [] q buf s = refl
starts_with_less (x ∷ p) q [] s = s
starts_with_less (x ∷ p) q (c ∷ cs) s = ground (arith, s, starts_with_less p q cs)

pub is_partial_less :
    (seqs : Dict Bytes Bytes) (buf more : Bytes)
    → is_partial seqs buf ≡ false
    → is_partial seqs (buf ++ more) ≡ false
unfolding is_partial
is_partial_less [] buf more p = refl
is_partial_less ((seq, repl) ∷ seqs) buf more p =
    elim (Bool-cases (starts_with (buf ++ more) seq)) [
      | inl s ↦ ground (
        arith,
        p,
        s,
        starts_with_less buf more seq s,
        length-append buf more,
        is_partial_less seqs buf more,
      )
      | inr s ↦ ground (arith, p, s, is_partial_less seqs buf more)
    ]

pub match_first :
    (seqs : Dict Bytes Bytes) (buf repl rest : Bytes)
    → match_sequence seqs buf ≡ some (repl, rest)
    → AreSeparate seqs
    → (seq : Bytes) × (starts_with seq buf ≡ true)
      × (0 < length seq)
      × (rest ≡ drop (length seq) buf)
      × ((earlier : Bytes)
          → All (λ other. starts_with other.0 earlier ≡ false) seqs
          → starts_with seq earlier ≡ false)
unfolding match_sequence
match_first [] buf repl rest m a = ground (arith, m)
match_first ((seq, text) ∷ seqs) buf repl rest m (len, apart, a) =
    elim (Bool-cases (starts_with seq buf)) [
      | inl s ↦ (seq, s, len, ground (arith, m, s), λ earlier all. all.0)
      | inr s ↦
          let (found, t, pos, e, k) = match_first seqs buf repl rest (ground (arith, m, s)) a in
          (found, t, pos, e, λ earlier all. k earlier all.1)
    ]

pub match_more :
    (seqs : Dict Bytes Bytes) (buf more repl rest : Bytes)
    → match_sequence seqs buf ≡ some (repl, rest)
    → AreSeparate seqs
    → match_sequence seqs (buf ++ more) ≡ some (repl, rest ++ more)
unfolding match_sequence
match_more [] buf more repl rest m a = ground (arith, m)
match_more ((seq, text) ∷ seqs) buf more repl rest m (len, apart, a) =
    elim (Bool-cases (starts_with seq buf)) [
      | inl s ↦
          let long = starts_with-long seq buf s in
          ground (
            arith,
            m,
            s,
            starts_with-append seq buf more long,
            drop-append (length seq) buf more long,
          )
      | inr s ↦ elim (Bool-cases (starts_with seq (buf ++ more))) [
        | inr t ↦
            ground (arith, m, s, t, match_more seqs buf more repl rest (ground (arith, m, s)) a)
        | inl t ↦
            let (found, u, pos, e, k) = match_first seqs buf repl rest (ground (arith, m, s)) a in
            let long = starts_with-long found buf u in
            let here = starts_with-append found buf more long ∙ u in
            let both =
              starts_with_both found seq (buf ++ more) here t
                (omega (arith, long, longer_than seq buf more s t)) in
            ground (arith, both, k seq apart)
      ]
    ]
