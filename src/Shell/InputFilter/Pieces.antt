-- ===== src/Shell/InputFilter/Pieces.antt =====
-- Input that comes in pieces.
use telnetlib.Prelude.{
  ℕ, zero, suc, ◌+◌, ◌≤◌, ◌<◌, true, false, [], ◌∷◌, ◌++◌, Option, none, some, ◌≡◌, inl, inr, refl,
  arith, Bytes, length, length-append, Option-cases, Bool-cases, ap, append_assoc, nat_eq,
}
use telnetlib.Dict.{Dict}
use telnetlib.Shell.InputFilter.Sequences.{
  AreSeparate, are_separate, are_separate_sound, match_first, match_more, match_none,
  is_partial_less, length-drop,
}
use telnetlib.Shell.InputFilter.{
  InputFilter, is_partial, match_sequence, single_byte, feed_loop, feed,
}

module _ (table : Dict ℕ ℕ) (seqs : Dict Bytes Bytes) where
  -- Fuel above the length gives the result and what is left.
  abbrev Gives : Bytes → Bytes → Bytes → Type 0
  Gives buf out left = (f : ℕ) → length buf < f → feed_loop table seqs f buf ≡ some (out, left)

  Gives-nil : Gives [] [] []
  unfolding feed_loop
  Gives-nil zero h = absurd (omega arith)
  Gives-nil (suc f) h = refl

  Gives-match :
      (b : ℕ) (bs repl rest out left : Bytes)
      → match_sequence seqs (b ∷ bs) ≡ some (repl, rest)
      → length rest < length (b ∷ bs)
      → Gives rest out left
      → Gives (b ∷ bs) (repl ++ out) left
  unfolding feed_loop
  Gives-match b bs repl rest out left m short g zero h = absurd (omega arith)
  Gives-match b bs repl rest out left m short g (suc f) h =
      rw (feed_loop, m, g f (omega (arith, h, short))) refl

  Gives-partial :
      (b : ℕ) (bs : Bytes)
      → match_sequence seqs (b ∷ bs) ≡ none
      → is_partial seqs (b ∷ bs) ≡ true
      → Gives (b ∷ bs) [] (b ∷ bs)
  unfolding feed_loop
  Gives-partial b bs m p zero h = absurd (omega arith)
  Gives-partial b bs m p (suc f) h = rw (feed_loop, m, p) refl

  Gives-single :
      (b : ℕ) (bs out left : Bytes)
      → match_sequence seqs (b ∷ bs) ≡ none
      → is_partial seqs (b ∷ bs) ≡ false
      → Gives bs out left
      → Gives (b ∷ bs) (single_byte table b ∷ out) left
  unfolding feed_loop
  Gives-single b bs out left m p g zero h = absurd (omega arith)
  Gives-single b bs out left m p g (suc f) h = rw (feed_loop, m, p, g f (omega (arith, h))) refl

  -- The result for `buf`, with which any bytes behind it go on.
  pub record Goes (buf : Bytes) : Type 0 where
    pub out : Bytes
    pub left : Bytes
    pub gives : Gives buf out left
    pub short : length left ≤ length buf
    pub goes_on :
        (more out' left' : Bytes)
        → Gives (left ++ more) out' left'
        → Gives (buf ++ more) (out ++ out') left'

  match_shorter :
      (b : ℕ) (bs repl rest : Bytes)
      → AreSeparate seqs
      → match_sequence seqs (b ∷ bs) ≡ some (repl, rest)
      → length rest < length (b ∷ bs)
  match_shorter b bs repl rest a m =
      let (seq, s, pos, e, k) = match_first seqs (b ∷ bs) repl rest m a in
      omega (arith, ap length e, length-drop (length seq) (b ∷ bs) pos (omega arith))

  matched-Goes :
      (b : ℕ) (bs repl rest : Bytes)
      → AreSeparate seqs
      → match_sequence seqs (b ∷ bs) ≡ some (repl, rest)
      → Goes rest
      → Goes (b ∷ bs)
  matched-Goes b bs repl rest a m next =
      let short = match_shorter b bs repl rest a m in
      record {
        out = repl ++ next.out;
        left = next.left;
        gives = Gives-match b bs repl rest next.out next.left m short next.gives;
        short = omega (arith, short, next.short);
        goes_on = λ more out' left' g. rw (append_assoc repl next.out out') (
            Gives-match b (bs ++ more) repl (rest ++ more) (next.out ++ out') left'
              (match_more seqs (b ∷ bs) more repl rest m a)
              (omega (arith, short, length-append rest more, length-append bs more))
              (next.goes_on more out' left' g));
      }

  pub feed_loop-Goes : (n : ℕ) (buf : Bytes) → AreSeparate seqs → length buf < n → Goes buf
  feed_loop-Goes zero buf a h = absurd (omega arith)
  feed_loop-Goes (suc n) [] a h = record {
    out = [];
    left = [];
    gives = Gives-nil;
    short = omega arith;
    goes_on = λ more out' left' g. g;
  }
  feed_loop-Goes (suc n) (b ∷ bs) a h = elim (Option-cases (match_sequence seqs (b ∷ bs))) [
    | inr ((repl, rest), m) ↦
        matched-Goes b bs repl rest a m
          (feed_loop-Goes n rest a (omega (arith, h, match_shorter b bs repl rest a m)))
    | inl m ↦ elim (Bool-cases (is_partial seqs (b ∷ bs))) [
      | inl p ↦ record {
        out = [];
        left = b ∷ bs;
        gives = Gives-partial b bs m p;
        short = omega arith;
        goes_on = λ more out' left' g. g;
      }
      | inr p ↦
          let rest = feed_loop-Goes n bs a (omega (arith, h)) in
          record {
            out = single_byte table b ∷ rest.out;
            left = rest.left;
            gives = Gives-single b bs rest.out rest.left m p rest.gives;
            short = omega (arith, rest.short);
            goes_on = λ more out' left' g.
                Gives-single b (bs ++ more) (rest.out ++ out') left'
                  (match_none seqs (b ∷ bs) more m p) (is_partial_less seqs (b ∷ bs) more p)
                  (rest.goes_on more out' left' g);
          }
    ]
  ]

-- Two calls of `feed`, with the bytes that they return joined.
abbrev pub feed_both : ℕ → Bytes → Bytes → InputFilter → Option (Bytes × InputFilter)
feed_both fuel first second s = elim (feed fuel first s) [
  | none ↦ none
  | some (result, s1) ↦ elim (feed fuel second s1) [
    | none ↦ none
    | some (more, s2) ↦ some (result ++ more, s2)
  ]
]

feed_once :
    (s : InputFilter) (bytes out left : Bytes) (fuel : ℕ)
    → Gives s.map_singlebyte s.seq_sorted (s.buf ++ bytes) out left
    → length (s.buf ++ bytes) < fuel
    → feed fuel bytes s ≡ some (out, record s { buf = left })
unfolding feed
feed_once s bytes out left fuel g h = rw (feed, g fuel h) refl

feed_twice :
    (s s1 s2 : InputFilter) (first second out1 out2 : Bytes) (fuel : ℕ)
    → feed fuel first s ≡ some (out1, s1)
    → feed fuel second s1 ≡ some (out2, s2)
    → feed_both fuel first second s ≡ some (out1 ++ out2, s2)
feed_twice s s1 s2 first second out1 out2 fuel e1 e2 = rw (feed_both, e1, e2) refl

-- What a terminal sends is filtered alike however it is divided, also where a sequence comes in
-- pieces: `feed` of some bytes and then of others returns the bytes, joined, that it returns for all
-- of them at once, and leaves the same filter; it ends, with any fuel above the number of bytes. No
-- sequence of the table is empty, and none stands at the front of one before it in the order of
-- their lengths.
pub feed_in_pieces :
    (s : InputFilter) (first second : Bytes) (fuel : ℕ)
    → are_separate s.seq_sorted ≡ true
    → length s.buf + length first + length second < fuel
    → (r : Bytes × InputFilter) × (feed fuel (first ++ second) s ≡ some r)
      × (feed_both fuel first second s ≡ some r)
feed_in_pieces s first second fuel separate h =
    let a = are_separate_sound s.seq_sorted separate in
    let sizes = length-append s.buf first in
    let one =
      feed_loop-Goes s.map_singlebyte s.seq_sorted fuel (s.buf ++ first) a
        (omega (arith, h, sizes)) in
    let between = record s { buf = one.left } in
    let rest_sizes = length-append one.left second in
    let two =
      feed_loop-Goes s.map_singlebyte s.seq_sorted fuel (one.left ++ second) a
        (omega (arith, h, sizes, one.short, rest_sizes)) in
    let whole = one.goes_on second two.out two.left two.gives in
    let joined = append_assoc s.buf first second in
    let once = feed_once s first one.out one.left fuel one.gives (omega (arith, h, sizes)) in
    let again =
      feed_once between second two.out two.left fuel two.gives
        (omega (arith, h, sizes, one.short, rest_sizes)) in
    (
      (one.out ++ two.out, record s { buf = two.left }),
      feed_once s (first ++ second) (one.out ++ two.out) two.left fuel (rw joined at whole)
          (omega (arith, h, length-append s.buf (first ++ second), length-append first second)),
      feed_twice s between (record s { buf = two.left }) first second one.out two.out fuel once
          again,
    )
