-- ===== src/Mud/Msdp/Stall.antt =====
-- Input on which `MsdpParser` never ends.
use telnetlib.Prelude.{
  ℕ, zero, suc, false, [], ◌∷◌, ◌++◌, Option, ◌≡◌, ◌≢◌, ◌⊎◌, inl, inr, refl, arith, nat_eq, Bytes,
  elem, All,
}
use telnetlib.Telopt.{msdp_var, msdp_val, msdp_table_open, msdp_table_close, msdp_array_open}
use telnetlib.Mud.Text.{read_until, read_until-append, decode_best_effort}
use telnetlib.Mud.Msdp.{
  Value, Fields, Items, no_fields, no_items, done, out_of_fuel, append_item, skip_val, read_key,
  read_string, parse_value, parse_table, parse_array, parse_from, msdp_decode,
}

-- A table that goes on with a byte other than VAR, or an array with VAR or TABLE_CLOSE.
abbrev pub IsStuck : ℕ → ℕ → Type 0
IsStuck opening c =
    ((opening ≡ msdp_table_open) × (c ≢ msdp_table_close) × (c ≢ msdp_var))
    ⊎ ((opening ≡ msdp_array_open) × ((c ≡ msdp_var) ⊎ (c ≡ msdp_table_close)))

module _ (decode : Bytes → Option Bytes) where
  table_stuck :
      (f : ℕ) (fs : Fields) (c : ℕ) (rest : Bytes)
      → c ≢ msdp_table_close
      → c ≢ msdp_var
      → parse_table decode f fs (c ∷ rest) ≡ out_of_fuel
  unfolding parse_table
  table_stuck zero fs c rest nc nv = refl
  table_stuck (suc f) fs c rest nc nv = ground (arith, table_stuck f fs c rest nc nv)

  -- a text of no bytes, before a delimiter
  parse_value-nothing :
      (f : ℕ) (c : ℕ) (rest : Bytes)
      → (c ≡ msdp_var) ⊎ (c ≡ msdp_table_close)
      → (t : Bytes) × (parse_value decode (suc f) (c ∷ rest) ≡ done (Value.text t) (c ∷ rest))
  unfolding parse_value read_string read_until elem
  parse_value-nothing f c rest s = (decode_best_effort decode [], ground arith)

  array_stuck :
      (f : ℕ) (xs : Items) (c : ℕ) (rest : Bytes)
      → (c ≡ msdp_var) ⊎ (c ≡ msdp_table_close)
      → parse_array decode f xs (c ∷ rest) ≡ out_of_fuel
  unfolding parse_array skip_val
  array_stuck zero xs c rest s = refl
  array_stuck (suc zero) xs c rest s = ground arith
  array_stuck (suc (suc f)) xs c rest s =
      let (t, once) = parse_value-nothing f c rest s in
      ground (arith, once, array_stuck (suc f) (append_item xs (Value.text t)) c rest s)

  value_stuck :
      (f opening c : ℕ) (rest : Bytes)
      → IsStuck opening c
      → parse_value decode f (opening ∷ c ∷ rest) ≡ out_of_fuel
  unfolding parse_value
  value_stuck zero opening c rest s = refl
  value_stuck (suc f) opening c rest (inl (e, nc, nv)) =
      ground (arith, e, table_stuck f no_fields c rest nc nv)
  value_stuck (suc f) opening c rest (inr (e, s)) =
      ground (arith, e, array_stuck f no_items c rest s)

  from_stuck :
      (f opening c : ℕ) (fs : Fields) (key rest : Bytes)
      → All (λ b. elem b (msdp_val ∷ msdp_var ∷ []) ≡ false) key
      → IsStuck opening c
      → parse_from decode f fs (msdp_var ∷ (key ++ (msdp_val ∷ opening ∷ c ∷ rest))) ≡ out_of_fuel
  unfolding parse_from read_key elem
  from_stuck zero opening c fs key rest a s = refl
  from_stuck (suc f) opening c fs key rest a s =
      rw
        (
          read_until-append (msdp_val ∷ msdp_var ∷ []) key (msdp_val ∷ opening ∷ c ∷ rest) a refl,
          value_stuck f opening c rest s,
        )
        refl

  -- A payload that names a variable, whose name holds no VAL and no VAR, and gives it a table that
  -- does not go on with VAR or end, or an array that goes on with VAR or TABLE_CLOSE, is never
  -- decoded, whatever follows and whatever the codec: no amount of fuel is enough, so that
  -- `msdp_decode` never returns and never raises.
  pub msdp_decode_stalls :
      (fuel opening c : ℕ) (key rest : Bytes)
      → All (λ b. elem b (msdp_val ∷ msdp_var ∷ []) ≡ false) key
      → IsStuck opening c
      → msdp_decode decode fuel (msdp_var ∷ (key ++ (msdp_val ∷ opening ∷ c ∷ rest))) ≡ out_of_fuel
  unfolding msdp_decode
  msdp_decode_stalls fuel opening c key rest a s = from_stuck fuel opening c no_fields key rest a s
