-- ===== src/Mud/Mssp.antt =====
-- mud.py: `mssp_encode` and `mssp_decode`.
pub mod Total
pub mod RoundTrip
use telnetlib.Prelude.{
  ℕ, zero, suc, Bool, true, false, List, [], ◌∷◌, ◌++◌, Option, none, some, if◌then◌else◌, ◌==◌,
  nat_eq, bytes_eq, Bytes, length,
}
use telnetlib.Telopt.{mssp_var, mssp_val}
use telnetlib.Dict
use telnetlib.Dict.{Dict}
use telnetlib.Mud.Text.{decode_best_effort, read_until}

-- A `str`, or a `list[str]`.
pub data MsspValue : Type 0 where
  one : Bytes → MsspValue
  many : List Bytes → MsspValue

-- one value of the result
unfoldable pub add_value : Dict Bytes MsspValue → Option Bytes → Bytes → Dict Bytes MsspValue
add_value result none value = result
add_value result (some key) value = elim (Dict.get result key) [
  | none ↦ Dict.put result key (one value)
  | some existing ↦ elim existing [
    | one old ↦ Dict.put result key (many (old ∷ value ∷ []))
    | many olds ↦ Dict.put result key (many (olds ++ (value ∷ [])))
  ]
]

abbrev pub stops : Bytes
stops = mssp_val ∷ mssp_var ∷ []

abbrev pub values_of : MsspValue → List Bytes
values_of (one value) = value ∷ []
values_of (many values) = values

module _ (encode : Bytes → Bytes) where
  unfoldable pub encode_values : List Bytes → Bytes
  encode_values [] = []
  encode_values (value ∷ values) = mssp_val ∷ (encode value ++ encode_values values)

  -- mssp_encode
  unfoldable pub mssp_encode : Dict Bytes MsspValue → Bytes
  mssp_encode [] = []
  mssp_encode ((key, value) ∷ variables) =
      mssp_var ∷ (encode key ++ (encode_values (values_of value) ++ mssp_encode variables))

module _ (decode : Bytes → Option Bytes) where
  -- the loop of mssp_decode; `none` where the fuel runs out
  unfoldable pub decode_from :
      ℕ → Option Bytes → Dict Bytes MsspValue → Bytes → Option (Dict Bytes MsspValue)
  decode_from zero current_var result buf = none
  decode_from (suc f) current_var result [] = some result
  decode_from (suc f) current_var result (c ∷ cs) =
      let (before, after) = read_until stops cs in
      elim (c == mssp_var) [
        | true ↦ decode_from f (some (decode_best_effort decode before)) result after
        | false ↦ elim (c == mssp_val) [
          | true ↦
              decode_from f current_var
                (add_value result current_var (decode_best_effort decode before)) after
          | false ↦ decode_from f current_var result cs
        ]
      ]

  -- mssp_decode, with the fuel given
  unfoldable pub mssp_decode : ℕ → Bytes → Option (Dict Bytes MsspValue)
  mssp_decode fuel buf = decode_from fuel none [] buf
