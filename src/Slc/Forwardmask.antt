-- ===== src/Slc/Forwardmask.antt =====
-- slc.py: `generate_forwardmask` and class `Forwardmask`.
use telnetlib.Prelude.{
  ℕ, zero, suc, ◌+◌, ◌-◌, ◌*◌, ◌/◌, ◌%◌, ◌^◌, ◌<◌, ◌≡◌, refl, ap, Bool-cases, inl, inr, Bool, true,
  false, not, bit_and, bit_or, [], ◌∷◌, ◌++◌, Option, none, some, arith, if◌then◌else◌, ◌==◌,
  nat_eq, Bytes,
}
use Prim.Native.Nat.{bit_and-bitwise}
use telnetlib.Dict
use telnetlib.Dict.{Dict}
use telnetlib.Slc.Objects.{is_nosupport}
use telnetlib.Slc.Table.{Store, snoop}

abbrev get_elem? : Bytes → ℕ → Option ℕ
get_elem? [] i = none
get_elem? (x ∷ xs) zero = some x
get_elem? (x ∷ xs) (suc i) = get_elem? xs i

abbrev replicate : ℕ → ℕ → Bytes
replicate zero b = []
replicate (suc n) b = b ∷ replicate n b

-- The test of the innermost `if`. The first part of what `snoop` returns is the callback, looked
-- up in the empty dict that is passed.
is_forwarded : ℕ → Dict ℕ ℕ → Store → Bool
is_forwarded char tabset h = elim (snoop {C = ℕ} char tabset h []).0 [
  | none ↦ false
  | some func ↦ elim (snoop {C = ℕ} char tabset h []).2 [
    | none ↦ false
    | some slc_def ↦ not (is_nosupport slc_def)
  ]
]

-- The loop over the eight characters of one byte, with the rounds left; no shift after the last.
mask_byte : ℕ → ℕ → ℕ → Dict ℕ ℕ → Store → ℕ
mask_byte zero char byte tabset h = byte
mask_byte (suc left) char byte tabset h =
    let set = if is_forwarded char tabset h then bit_or byte 1 else byte in
    mask_byte left (char + 1) (if left == 0 then set else set * 2) tabset h

-- The loop over the bytes; those that it does not reach stay NUL.
pub mask_bytes : ℕ → ℕ → Dict ℕ ℕ → Store → Bytes
mask_bytes zero mask tabset h = []
mask_bytes (suc left) mask tabset h =
    mask_byte 8 (mask * 8) 0 tabset h ∷ mask_bytes left (mask + 1) tabset h

-- generate_forwardmask: the value of the `Forwardmask`
unfoldable pub generate_forwardmask : Bool → Dict ℕ ℕ → Store → Bytes
generate_forwardmask binary_mode tabset h =
    let num_bytes = if binary_mode then 32 else 16 in
    let rounds = if binary_mode then 256 / 8 else 127 / 8 in
    mask_bytes rounds 0 tabset h ++ replicate (num_bytes - rounds) 0

-- Forwardmask.__contains__; `none` is `IndexError`
unfoldable pub contains : Bytes → ℕ → Option Bool
contains value number = elim (get_elem? value (number / 8)) [
  | none ↦ none
  | some mask ↦ some (not (bit_and mask (2 ^ (7 - number % 8)) == 0))
]

get_elem?-replicate : (n i : ℕ) → i < n → get_elem? (replicate n 0) i ≡ some 0
get_elem?-replicate zero i h = absurd (omega arith)
get_elem?-replicate (suc n) zero h = refl
get_elem?-replicate (suc n) (suc i) h = get_elem?-replicate n i (omega arith)

snoop_no_callback : (char : ℕ) (tab : Dict ℕ ℕ) (h : Store) → (snoop {C = ℕ} char tab h []).0 ≡ none
unfolding snoop Dict.get
snoop_no_callback char [] h = refl
snoop_no_callback char ((func, r) ∷ tab) h = ground (arith, snoop_no_callback char tab h)

module _ (tab : Dict ℕ ℕ) (h : Store) where
  is_forwarded-false : (char : ℕ) → is_forwarded char tab h ≡ false
  unfolding is_forwarded
  is_forwarded-false char = rw (snoop_no_callback char tab h, is_forwarded)

  mask_byte-zero : (left char : ℕ) → mask_byte left char 0 tab h ≡ 0
  unfolding mask_byte
  mask_byte-zero zero char = refl
  mask_byte-zero (suc left) char = rw (is_forwarded-false char) (elim (Bool-cases (left == 0)) [
    | inl e ↦ rw e (mask_byte-zero left (char + 1))
    | inr e ↦ rw e (mask_byte-zero left (char + 1))
  ])

  mask_bytes-replicate : (left mask : ℕ) → mask_bytes left mask tab h ≡ replicate left 0
  unfolding mask_bytes
  mask_bytes-replicate zero mask = refl
  mask_bytes-replicate (suc left) mask =
      rw (mask_byte-zero 8 (mask * 8)) (ap (◌∷◌ 0) (mask_bytes-replicate left (mask + 1)))

  generate_forwardmask-replicate :
      (binary_mode : Bool)
      → generate_forwardmask binary_mode tab h ≡ replicate (if binary_mode then 32 else 16) 0
  unfolding generate_forwardmask
  generate_forwardmask-replicate true = rw (mask_bytes-replicate 32 0)
  generate_forwardmask-replicate false = rw (mask_bytes-replicate 15 0)

no_bits : (flag : ℕ) → bit_and 0 flag ≡ 0
no_bits flag = bit_and-bitwise 0 flag

contains-replicate : (n number : ℕ) → number < n * 8 → contains (replicate n 0) number ≡ some false
unfolding contains
contains-replicate n number h =
    rw (get_elem?-replicate n (number / 8) (omega arith), contains)
      (ground (arith, no_bits (2 ^ (7 - number % 8))))

-- No character is in the generated mask, whatever the table supports and in both modes: each of
-- the characters that the mask has a bit for is reported as absent.
pub generate_forwardmask_empty :
    (binary_mode : Bool) (tab : Dict ℕ ℕ) (h : Store) (char : ℕ)
    → char < (if binary_mode then 256 else 128)
    → contains (generate_forwardmask binary_mode tab h) char ≡ some false
generate_forwardmask_empty true tab h char lt =
    rw (generate_forwardmask-replicate tab h true) (contains-replicate 32 char lt)
generate_forwardmask_empty false tab h char lt =
    rw (generate_forwardmask-replicate tab h false) (contains-replicate 16 char lt)
