-- ===== src/Reader/Search.antt =====
-- Searching a buffer that grows at its end.
use telnetlib.Prelude.{
  ℕ, zero, suc, ◌+◌, ◌≤◌, ◌<◌, true, false, [], ◌∷◌, ◌++◌, Option, none, some, ◌≡◌, refl, arith,
  nat_eq, Bytes, length, drop, Option-cases, Bool-cases, ◌⊎◌, inl, inr, ap, sym,
}
use telnetlib.Reader.Reads.{behind, starts_with, find, find_at}

-- The separator stands at none of the first positions.
abbrev pub Clear : Bytes → ℕ → Bytes → Type 0
Clear sep zero buf = Unit
Clear sep (suc n) [] = Unit
Clear sep (suc n) (c ∷ cs) = (starts_with sep (c ∷ cs) ≡ false) × Clear sep n cs

pub starts_with-append :
    (sep buf more : Bytes)
    → length sep ≤ length buf
    → starts_with sep (buf ++ more) ≡ starts_with sep buf
unfolding starts_with
starts_with-append [] buf more h = refl
starts_with-append (s ∷ ss) [] more h = absurd (omega arith)
starts_with-append (s ∷ ss) (c ∷ cs) more h = rw (starts_with-append ss cs more (omega arith)) refl

pub starts_with-short : (sep buf : Bytes) → length buf < length sep → starts_with sep buf ≡ false
unfolding starts_with
starts_with-short [] buf h = absurd (omega arith)
starts_with-short (s ∷ ss) [] h = refl
starts_with-short (s ∷ ss) (c ∷ cs) h = ground (arith, starts_with-short ss cs (omega arith))

pub starts_with-long : (sep buf : Bytes) → starts_with sep buf ≡ true → length sep ≤ length buf
unfolding starts_with
starts_with-long [] buf h = omega arith
starts_with-long (s ∷ ss) [] h = ground (arith, h)
starts_with-long (s ∷ ss) (c ∷ cs) h = ground (arith, starts_with-long ss cs)

find_cons-none :
    (sep : Bytes) (c : ℕ) (cs : Bytes)
    → find sep (c ∷ cs) ≡ none
    → (starts_with sep (c ∷ cs) ≡ false) × (find sep cs ≡ none)
unfolding find
find_cons-none sep c cs h = ground (arith, h)

find_cons-some :
    (sep : Bytes) (c : ℕ) (cs : Bytes) (k : ℕ)
    → find sep (c ∷ cs) ≡ some k
    → ((starts_with sep (c ∷ cs) ≡ true) × (k ≡ 0))
      ⊎ ((starts_with sep (c ∷ cs) ≡ false) × ((j : ℕ) × (find sep cs ≡ some j) × (k ≡ suc j)))
unfolding find
find_cons-some sep c cs k h = elim (Option-cases (find sep cs)) [
  | inl none_yet ↦ ground (arith, h, none_yet)
  | inr (j, hj) ↦ elim (Bool-cases (starts_with sep (c ∷ cs))) [
    | inl s ↦ inl (s, ground (arith, h, s))
    | inr s ↦ inr (s, (j, hj, ground (arith, h, hj, s)))
  ]
]

starts_with-late :
    (sep buf more : Bytes)
    → starts_with sep (buf ++ more) ≡ true
    → starts_with sep buf ≡ false
    → length buf < length sep
unfolding starts_with
starts_with-late [] buf more s n = ground (arith, n)
starts_with-late (s ∷ ss) [] more t n = omega arith
starts_with-late (s ∷ ss) (c ∷ cs) more t n = ground (arith, starts_with-late ss cs more)

pub Clear-append :
    (sep : Bytes) (n : ℕ) (buf more : Bytes)
    → 0 < length sep
    → (0 < n → n + length sep ≤ suc (length buf))
    → Clear sep n buf
    → Clear sep n (buf ++ more)
Clear-append sep zero buf more some_sep h k = tt
Clear-append sep (suc n) [] more some_sep h k = absurd (omega (arith, h (omega arith)))
Clear-append sep (suc n) (c ∷ cs) more some_sep h (k, ks) =
    let inside = h (omega arith) in
    (
      rw (starts_with-append sep (c ∷ cs) more (omega (arith, inside))) k,
      Clear-append sep n cs more some_sep (λ p. omega (arith, inside)) ks,
    )

behind_0 : (o : Option ℕ) → behind 0 o ≡ o
behind_0 none = refl
behind_0 (some k) = ap some (omega arith)

behind-suc : (n : ℕ) (o : Option ℕ) → behind (suc n) o ≡ behind 1 (behind n o)
behind-suc n none = refl
behind-suc n (some k) = ap some (omega arith)

-- A search may begin behind positions that are known to be clear.
pub find-Clear :
    (sep : Bytes) (n : ℕ) (buf : Bytes) → Clear sep n buf → find_at sep n buf ≡ find sep buf
unfolding find find_at
find-Clear sep zero buf k = behind_0 (find sep buf)
find-Clear sep (suc n) [] k = refl
find-Clear sep (suc n) (c ∷ cs) (k, ks) =
    rw (k, sym (find-Clear sep n cs ks)) (behind-suc n (find sep (drop n cs)))

-- Where nothing was found, every position is clear.
pub find-none : (sep buf : Bytes) (n : ℕ) → find sep buf ≡ none → Clear sep n buf
unfolding find
find-none sep buf zero h = tt
find-none sep [] (suc n) h = tt
find-none sep (c ∷ cs) (suc n) h =
    let parts = find_cons-none sep c cs h in (parts.0, find-none sep cs n parts.1)

-- The separator does not stand where the rest is too short for it.
pub find-short :
    (sep : Bytes) (n : ℕ) (buf : Bytes)
    → 0 < length sep
    → length buf < n + length sep
    → Clear sep n buf
    → find sep buf ≡ none
unfolding find
find-short sep n [] some_sep h k = refl
find-short sep zero (c ∷ cs) some_sep h k =
    rw
      (
        starts_with-short sep (c ∷ cs) (omega arith),
        find-short sep zero cs some_sep (omega arith) tt,
      )
      refl
find-short sep (suc n) (c ∷ cs) some_sep h (k, ks) =
    rw (k, find-short sep n cs some_sep (omega arith) ks) refl

-- What is found stays where it is when more comes behind it.
pub find-append :
    (sep buf more : Bytes) (k : ℕ)
    → find sep buf ≡ some k
    → (find sep (buf ++ more) ≡ some k) × (k + length sep ≤ length buf)
unfolding find
find-append sep [] more k h = ground (arith, h)
find-append sep (c ∷ cs) more k h = elim (find_cons-some sep c cs k h) [
  | inl (s, e) ↦
      let long = starts_with-long sep (c ∷ cs) s in
      (rw (starts_with-append sep (c ∷ cs) more long, s) (ap some (sym e)), omega (arith, long, e))
  | inr (s, (j, hj, e)) ↦
      let (same, long) = find-append sep cs more j hj in
      (
        rw (starts_with-append sep (c ∷ cs) more (omega (arith, long)), s, same)
            (ap some (omega (arith, e))),
        omega (arith, long, e),
      )
]

-- What is found with more bytes, and not without them, does not end before them.
pub find-late :
    (sep buf more : Bytes) (k : ℕ)
    → 0 < length sep
    → find sep buf ≡ none
    → find sep (buf ++ more) ≡ some k
    → length buf < k + length sep
unfolding find
find-late sep [] more k some_sep none_yet h = omega arith
find-late sep (c ∷ cs) more k some_sep none_yet h =
    let (front, rest) = find_cons-none sep c cs none_yet in
    elim (find_cons-some sep c (cs ++ more) k h) [
      | inl (s, e) ↦ omega (arith, starts_with-late sep (c ∷ cs) more s front, e)
      | inr (s, (j, hj, e)) ↦ omega (arith, find-late sep cs more j some_sep rest hj, e)
    ]
