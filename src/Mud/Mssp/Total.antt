-- ===== src/Mud/Mssp/Total.antt =====
-- `mssp_decode` ends on every input.
use telnetlib.Prelude.{
  ℕ, zero, suc, ◌≤◌, ◌<◌, false, [], ◌∷◌, Option, none, some, ◌≡◌, refl, arith, ◌==◌, nat_eq, Bytes,
  length, Bool-cases, inl, inr, bytes_eq,
}
use telnetlib.Telopt.{mssp_var, mssp_val}
use telnetlib.Dict.{Dict}
use telnetlib.Mud.Text.{decode_best_effort, read_until}
use telnetlib.Mud.Mssp.{MsspValue, stops, add_value, decode_from, mssp_decode}

length-read_until : (delims buf : Bytes) → length (read_until delims buf).1 ≤ length buf
unfolding read_until
length-read_until delims [] = omega arith
length-read_until delims (c ∷ cs) = ground (arith, length-read_until delims cs)

module _ (decode : Bytes → Option Bytes) where
  -- More fuel than bytes gives `r`.
  abbrev pub Gives : Option Bytes → Dict Bytes MsspValue → Bytes → Dict Bytes MsspValue → Type 0
  Gives cur result buf r = (f : ℕ) → length buf < f → decode_from decode f cur result buf ≡ some r

  pub Gives-nil : (cur : Option Bytes) (result : Dict Bytes MsspValue) → Gives cur result [] result
  unfolding decode_from
  Gives-nil cur result zero h = absurd (omega arith)
  Gives-nil cur result (suc f) h = refl

  pub Gives-var :
      (cur : Option Bytes) (result : Dict Bytes MsspValue) (cs : Bytes) (r : Dict Bytes MsspValue)
      → Gives
          (some (decode_best_effort decode (read_until stops cs).0))
          result
          (read_until stops cs).1
          r
      → Gives cur result (mssp_var ∷ cs) r
  unfolding decode_from
  Gives-var cur result cs r k zero h = absurd (omega arith)
  Gives-var cur result cs r k (suc f) h = k f (omega (arith, h, length-read_until stops cs))

  pub Gives-val :
      (cur : Option Bytes) (result : Dict Bytes MsspValue) (cs : Bytes) (r : Dict Bytes MsspValue)
      → Gives cur
          (add_value result cur (decode_best_effort decode (read_until stops cs).0))
          (read_until stops cs).1
          r
      → Gives cur result (mssp_val ∷ cs) r
  unfolding decode_from
  Gives-val cur result cs r k zero h = absurd (omega arith)
  Gives-val cur result cs r k (suc f) h = k f (omega (arith, h, length-read_until stops cs))

  Gives-other :
      (cur : Option Bytes) (result : Dict Bytes MsspValue) (c : ℕ) (cs : Bytes)
      (r : Dict Bytes MsspValue)
      → (c == mssp_var) ≡ false
      → (c == mssp_val) ≡ false
      → Gives cur result cs r
      → Gives cur result (c ∷ cs) r
  unfolding decode_from
  Gives-other cur result c cs r nr nl k zero h = absurd (omega arith)
  Gives-other cur result c cs r nr nl k (suc f) h = ground (arith, nr, nl, k f (omega (arith, h)))

  abbrev Terminates : Option Bytes → Dict Bytes MsspValue → Bytes → Type 0
  Terminates cur result buf = (r : Dict Bytes MsspValue) × Gives cur result buf r

  -- one round, by the byte it reads
  round :
      (cur : Option Bytes) (result : Dict Bytes MsspValue) (c : ℕ) (cs : Bytes)
      → ((cur' : Option Bytes) (result' : Dict Bytes MsspValue) (buf : Bytes)
          → length buf ≤ length cs
          → Terminates cur' result' buf)
      → Terminates cur result (c ∷ cs)
  round cur result c cs ih = elim (Bool-cases (c == mssp_var)) [
    | inl is ↦
        let (r, k) =
          ih (some (decode_best_effort decode (read_until stops cs).0)) result
            (read_until stops cs).1 (length-read_until stops cs) in
        rw ((nat_eq.equal_iff c mssp_var).0 is) (r, Gives-var cur result cs r k)
    | inr nr ↦ elim (Bool-cases (c == mssp_val)) [
      | inl is ↦
          let (r, k) =
            ih cur (add_value result cur (decode_best_effort decode (read_until stops cs).0))
              (read_until stops cs).1 (length-read_until stops cs) in
          rw ((nat_eq.equal_iff c mssp_val).0 is) (r, Gives-val cur result cs r k)
      | inr nl ↦
          let (r, k) = ih cur result cs (omega arith) in (r, Gives-other cur result c cs r nr nl k)
    ]
  ]

  decode_from-total :
      (f : ℕ) (cur : Option Bytes) (result : Dict Bytes MsspValue) (buf : Bytes)
      → length buf < f
      → Terminates cur result buf
  decode_from-total zero cur result buf h = absurd (omega arith)
  decode_from-total (suc f) cur result [] h = (result, Gives-nil cur result)
  decode_from-total (suc f) cur result (c ∷ cs) h =
      round cur result c cs
        λ cur' result' buf le. decode_from-total f cur' result' buf (omega (arith, h, le))

  -- `mssp_decode` returns on every input, whatever the codec: with any two amounts of fuel above the
  -- number of bytes it gives a result, and the same one.
  pub mssp_decode_total :
      (buf : Bytes) (fuel fuel' : ℕ)
      → length buf < fuel
      → length buf < fuel'
      → (r : Dict Bytes MsspValue) × (mssp_decode decode fuel buf ≡ some r)
        × (mssp_decode decode fuel' buf ≡ some r)
  unfolding mssp_decode
  mssp_decode_total buf fuel fuel' h h' =
      let (r, gives) = decode_from-total (suc (length buf)) none [] buf (omega arith) in
      (r, gives fuel h, gives fuel' h')
