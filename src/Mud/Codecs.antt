-- ===== src/Mud/Codecs.antt =====
-- mud.py: `gmcp_encode`, `gmcp_decode`, `zmp_decode`, `atcp_decode` and `aardwolf_decode`. The JSON
-- library and `str.strip` are the fields of `JsonLib`.
pub mod Gmcp
use telnetlib.Prelude.{
  ℕ, Bool, true, false, List, [], ◌∷◌, ◌++◌, Option, none, some, if◌then◌else◌, ◌==◌, nat_eq, Bytes,
}
use telnetlib.Exec.{Result, ok, err, value_error}
use telnetlib.Mud.Text.{decode_best_effort, read_until}

-- What `json.loads` returns; a number is the text of it. `null` is Python's None.
mutual
  pub data Json : Type 0 where
    null : Json
    boolean : Bool → Json
    number : Bytes → Json
    string : Bytes → Json
    list : JsonItems → Json
    object : JsonMembers → Json

  pub data JsonItems : Type 0 where
    json_end : JsonItems
    json_item : Json → JsonItems → JsonItems

  pub data JsonMembers : Type 0 where
    json_close : JsonMembers
    json_member : Bytes → Json → JsonMembers → JsonMembers

pub record JsonLib : Type 0 where
  -- json.dumps(data, separators=(",", ":"))
  pub dumps : Json → Bytes
  -- json.loads(text), or JSONDecodeError
  pub loads : Bytes → Option Json
  -- str.strip()
  pub strip : Bytes → Bytes

-- b" "
abbrev pub space : ℕ
space = 32

-- buf.split(b" ", 1): the first part, and the second where there is one
unfoldable pub split_space : Bytes → Bytes × Option Bytes
split_space buf =
    let (first, left) = read_until (space ∷ []) buf in
    (first, elim left [ [] ↦ none | c ∷ second ↦ some second ])

-- gmcp_encode
unfoldable pub gmcp_encode : JsonLib → (Bytes → Bytes) → Bytes → Json → Bytes
gmcp_encode json encode name null = encode name
gmcp_encode json encode name data_ = encode name ++ (space ∷ encode (json.dumps data_))

-- the part of gmcp_decode behind the first space
unfoldable pub gmcp_data : JsonLib → Bytes → Bytes → Result (Bytes × Json)
gmcp_data json name [] = ok (name, null)
gmcp_data json name (c ∷ cs) = elim (json.loads (c ∷ cs)) [
  | none ↦ err value_error
  | some data_ ↦ ok (name, data_)
]

-- gmcp_decode
unfoldable pub gmcp_decode : JsonLib → (Bytes → Option Bytes) → Bytes → Result (Bytes × Json)
gmcp_decode json decode buf =
    let (first, second) = split_space buf in
    elim second [
      | none ↦ ok (decode_best_effort decode buf, null)
      | some text ↦
          gmcp_data json (decode_best_effort decode first)
            (json.strip (decode_best_effort decode text))
    ]

-- buf.split(b"\x00") without a last part that is empty, for a `buf` behind the bytes `cur`
unfoldable pub split_nul : Bytes → Bytes → List Bytes
split_nul [] [] = []
split_nul (b ∷ bs) [] = (b ∷ bs) ∷ []
split_nul cur (c ∷ cs) =
    let same = split_nul (cur ++ (c ∷ [])) cs in
    let next = cur ∷ split_nul [] cs in if c == 0 then next else same

unfoldable pub decode_each : (Bytes → Option Bytes) → List Bytes → List Bytes
decode_each decode [] = []
decode_each decode (part ∷ parts) = decode_best_effort decode part ∷ decode_each decode parts

-- zmp_decode
unfoldable pub zmp_decode : (Bytes → Option Bytes) → Bytes → List Bytes
zmp_decode decode buf = decode_each decode (split_nul [] buf)

-- atcp_decode
unfoldable pub atcp_decode : (Bytes → Option Bytes) → Bytes → Bytes × Bytes
atcp_decode decode buf =
    let (first, second) = split_space buf in
    (
      decode_best_effort decode first,
      elim second [ none ↦ [] | some text ↦ decode_best_effort decode text ],
    )

-- The names of _AARDWOLF_CHANNELS, `unknown` for no payload, and a byte printed in hexadecimal.
pub data Channel : Type 0 where
  status tick affect group skill quest spell stat message unknown : Channel
  hex : ℕ → Channel

-- _AARDWOLF_CHANNELS.get(byte, ...)
unfoldable pub channel_of : ℕ → Channel
channel_of byte =
    if byte == 100
    then status
    else if byte == 101
    then tick
    else if byte == 102
    then affect
    else if byte == 103
    then group
    else if byte == 104
    then skill
    else if byte == 105
    then quest
    else if byte == 106
    then spell
    else if byte == 107
    then stat
    else if byte == 108
    then message
    else hex byte

-- The dict that aardwolf_decode returns; `none` for a key it does not have.
pub record Aardwolf : Type 0 where
  pub channel : Channel
  pub channel_byte : ℕ
  pub data_byte : Option ℕ
  pub data_bytes : Option Bytes

-- aardwolf_decode
unfoldable pub aardwolf_decode : Bytes → Aardwolf
aardwolf_decode [] = record {
  channel = unknown;
  channel_byte = 0;
  data_byte = none;
  data_bytes = some [];
}
aardwolf_decode (c ∷ []) = record {
  channel = channel_of c;
  channel_byte = c;
  data_byte = none;
  data_bytes = none;
}
aardwolf_decode (c ∷ b ∷ []) = record {
  channel = channel_of c;
  channel_byte = c;
  data_byte = some b;
  data_bytes = some (b ∷ []);
}
aardwolf_decode (c ∷ b ∷ d ∷ cs) = record {
  channel = channel_of c;
  channel_byte = c;
  data_byte = none;
  data_bytes = some (b ∷ d ∷ cs);
}
