-- ===== src/Mud/Msdp.antt =====
-- mud.py: `msdp_encode`, `MsdpParser` and `msdp_decode`. A loop that does not get ahead is a loop on
-- fuel that runs out whatever it is.
pub mod RoundTrip
pub mod Stall
use telnetlib.Prelude.{
  ℕ, zero, suc, ◌+◌, ◌*◌, Bool, true, false, ◌||◌, [], ◌∷◌, ◌++◌, Option, none, some, if◌then◌else◌,
  ◌==◌, nat_eq, bytes_eq, Bytes, length,
}
use telnetlib.Telopt.{
  msdp_var, msdp_val, msdp_table_open, msdp_table_close, msdp_array_open, msdp_array_close,
}
use telnetlib.Mud.Text.{decode_best_effort, read_until}

-- A value: the text that `str` gives, a dict in its order, or a list.
mutual
  pub data Value : Type 0 where
    text : Bytes → Value
    table : Fields → Value
    array : Items → Value

  pub data Fields : Type 0 where
    no_fields : Fields
    field : Bytes → Value → Fields → Fields

  pub data Items : Type 0 where
    no_items : Items
    item : Value → Items → Items

-- table[key] = value
unfoldable pub put_field : Fields → Bytes → Value → Fields
put_field no_fields k v = field k v no_fields
put_field (field j w fs) k v = if j == k then field j v fs else field j w (put_field fs k v)

-- array.append(value)
unfoldable pub append_item : Items → Value → Items
append_item no_items v = item v no_items
append_item (item w xs) v = item w (append_item xs v)

-- The outcome of a parser: a value and the bytes left; `out_of_fuel` has no counterpart.
pub data Run (A : Type 0) : Type 0 where
  done : A → Bytes → Run A
  out_of_fuel : Run A

abbrev pub bind : {A B : Type 0} → Run A → (A → Bytes → Run B) → Run B
bind (done a rest) f = f a rest
bind out_of_fuel f = out_of_fuel

-- _DELIMITERS
abbrev pub delimiters : Bytes
delimiters = msdp_var ∷ msdp_val ∷ msdp_table_close ∷ msdp_array_close ∷ []

-- `if ... == MSDP_VAL: self.idx += 1`
unfoldable pub skip_val : Bytes → Bytes
skip_val [] = []
skip_val (c ∷ cs) = if c == msdp_val then cs else c ∷ cs

module _ (encode : Bytes → Bytes) where
  unfoldable mutual
    -- encode_value
    pub encode_value : Value → Bytes
    encode_value (text t) = encode t
    encode_value (table fs) = msdp_table_open ∷ (encode_fields fs ++ (msdp_table_close ∷ []))
    encode_value (array xs) = msdp_array_open ∷ (encode_items xs ++ (msdp_array_close ∷ []))

    pub encode_fields : Fields → Bytes
    encode_fields no_fields = []
    encode_fields (field k v fs) =
        msdp_var ∷ (encode k ++ (msdp_val ∷ (encode_value v ++ encode_fields fs)))

    pub encode_items : Items → Bytes
    encode_items no_items = []
    encode_items (item v xs) = msdp_val ∷ (encode_value v ++ encode_items xs)

  -- msdp_encode
  unfoldable pub msdp_encode : Fields → Bytes
  msdp_encode variables = encode_fields variables

module _ (decode : Bytes → Option Bytes) where
  -- _read_string
  unfoldable pub read_string : Bytes → Bytes × Bytes
  read_string buf =
      let (before, after) = read_until delimiters buf in (decode_best_effort decode before, after)

  -- _read_key
  unfoldable pub read_key : Bytes → Bytes × Bytes
  read_key buf =
      let (before, after) = read_until (msdp_val ∷ msdp_var ∷ []) buf in
      (decode_best_effort decode before, after)

  -- One unit of fuel for each call of `parse_value` and each round of a loop.
  unfoldable mutual
    -- parse_value
    pub parse_value : ℕ → Bytes → Run Value
    parse_value zero buf = out_of_fuel
    parse_value (suc f) [] = done (text []) []
    parse_value (suc f) (c ∷ cs) = elim (c == msdp_table_open) [
      | true ↦ bind (parse_table f no_fields cs) (λ fs rest. done (table fs) rest)
      | false ↦ elim (c == msdp_array_open) [
        | true ↦ bind (parse_array f no_items cs) (λ xs rest. done (array xs) rest)
        | false ↦ (let (t, rest) = read_string (c ∷ cs) in done (text t) rest)
      ]
    ]

    -- the loop of _parse_table; a byte other than VAR is not passed over
    pub parse_table : ℕ → Fields → Bytes → Run Fields
    parse_table zero fs buf = out_of_fuel
    parse_table (suc f) fs [] = done fs []
    parse_table (suc f) fs (c ∷ cs) = elim (c == msdp_table_close) [
      | true ↦ done fs cs
      | false ↦ elim (c == msdp_var) [
        | true ↦
            (let (key, after) = read_key cs in
              bind (parse_value f (skip_val after))
                (λ v rest. parse_table f (put_field fs key v) rest))
        | false ↦ parse_table f fs (c ∷ cs)
      ]
    ]

    -- the loop of _parse_array
    pub parse_array : ℕ → Items → Bytes → Run Items
    parse_array zero xs buf = out_of_fuel
    parse_array (suc f) xs [] = done xs []
    parse_array (suc f) xs (c ∷ cs) = elim (c == msdp_array_close) [
      | true ↦ done xs cs
      | false ↦
          bind (parse_value f (skip_val (c ∷ cs))) (λ v rest. parse_array f (append_item xs v) rest)
    ]

  -- what `parse` does with the bytes behind a key
  abbrev parse_entry : ℕ → (Fields → Bytes → Run Fields) → Fields → Bytes → Bytes → Run Fields
  parse_entry f loop fs key [] = loop fs []
  parse_entry f loop fs key (c ∷ cs) = elim (c == msdp_val) [
    | true ↦ bind (parse_value f cs) (λ v rest. loop (put_field fs key v) rest)
    | false ↦ loop fs (c ∷ cs)
  ]

  -- the loop of parse; a key without VAL is passed over
  unfoldable pub parse_from : ℕ → Fields → Bytes → Run Fields
  parse_from zero fs buf = out_of_fuel
  parse_from (suc f) fs [] = done fs []
  parse_from (suc f) fs (c ∷ cs) = elim (c == msdp_var) [
    | true ↦ (let (key, after) = read_key cs in parse_entry f (parse_from f) fs key after)
    | false ↦ parse_from f fs cs
  ]

  -- msdp_decode, with the fuel given
  unfoldable pub msdp_decode : ℕ → Bytes → Run Fields
  msdp_decode fuel buf = parse_from fuel no_fields buf
