-- ===== src/Environ.antt =====
-- stream_writer.py: `_escape_environ`, `_unescape_environ`, `_encode_env_buf`, `_decode_env_buf`
-- (RFC 1572). `bytes.replace` is written out for the patterns of one and two bytes that are used;
-- the character encoding is Python's codec library, a parameter.
pub mod Escape
pub mod RoundTrip
use telnetlib.Prelude.{
  ℕ, ◌+◌, Bool, true, false, ◌&&◌, ◌||◌, not, List, [], ◌∷◌, ◌++◌, Option, none, some,
  if◌then◌else◌, ◌==◌, nat_eq, bytes_eq, Bytes,
}
use telnetlib.Telopt.{env_var, env_value, env_esc, env_uservar}
use telnetlib.Dict
use telnetlib.Dict.{Dict}

-- buf.replace(v, ESC + v)
escape_byte : ℕ → Bytes → Bytes
escape_byte v [] = []
escape_byte v (c ∷ cs) = if c == v then env_esc ∷ v ∷ escape_byte v cs else c ∷ escape_byte v cs

-- buf.replace(ESC + v, v): from the left, without overlap
unescape_byte : ℕ → Bytes → Bytes
unescape_byte v [] = []
unescape_byte v (c ∷ []) = c ∷ []
unescape_byte v (c ∷ d ∷ cs) =
    let found = d ∷ unescape_byte v cs in
    let other = c ∷ unescape_byte v (d ∷ cs) in if c == env_esc && d == v then found else other

-- _escape_environ
unfoldable pub escape_environ : Bytes → Bytes
unfolding escape_byte
escape_environ buf = escape_byte env_uservar (escape_byte env_var buf)

-- _unescape_environ
unfoldable pub unescape_environ : Bytes → Bytes
unfolding unescape_byte
unescape_environ buf = unescape_byte env_uservar (unescape_byte env_var buf)

-- One item of the loop of `_encode_env_buf`.
encode_item : (Bytes → Bytes) → Bytes → Bytes → Bytes
encode_item encode key value =
    env_var ∷ (escape_environ (encode key) ++ (env_value ∷ escape_environ (encode value)))

-- _encode_env_buf
unfoldable pub encode_env_buf : (Bytes → Bytes) → Dict Bytes Bytes → Bytes
unfolding encode_item
encode_env_buf encode [] = []
encode_env_buf encode ((key, value) ∷ env) =
    encode_item encode key value ++ encode_env_buf encode env

-- The test of the `breaks`: a VAR or USERVAR that no ESC stands right before.
is_break : ℕ → ℕ → Bool
is_break prev c = (c == env_var || c == env_uservar) && not (prev == env_esc)

-- The slices `buf[start:end]` from each break to the next one or the end. `prev` is the byte
-- before, and `cur` what the open slice has so far; `none` before the first break.
slices : ℕ → Option Bytes → Bytes → List Bytes
slices prev none [] = []
slices prev (some cur) [] = cur ∷ []
slices prev none (c ∷ cs) = slices c (if is_break prev c then some [] else none) cs
slices prev (some cur) (c ∷ cs) =
    let next = cur ∷ slices c (some []) cs in
    let same = slices c (some (cur ++ (c ∷ []))) cs in if is_break prev c then next else same

-- pair.split(VALUE, 1)
split_value : Bytes → Bytes × Option Bytes
split_value [] = ([], none)
split_value (c ∷ cs) =
    let (key, value) = split_value cs in if c == env_value then ([], some cs) else (c ∷ key, value)

-- One round of the loop of `_decode_env_buf`.
decode_item : (Bytes → Bytes) → Dict Bytes Bytes → Bytes → Dict Bytes Bytes
decode_item decode env pair =
    let (key, value) = split_value pair in
    Dict.put env (decode (unescape_environ key))
      (elim value [ none ↦ [] | some v ↦ decode (unescape_environ v) ])

decode_items : (Bytes → Bytes) → Dict Bytes Bytes → List Bytes → Dict Bytes Bytes
decode_items decode env [] = env
decode_items decode env (pair ∷ pairs) = decode_items decode (decode_item decode env pair) pairs

-- _decode_env_buf; no byte stands before the first, and VALUE is neither a break nor ESC
unfoldable pub decode_env_buf : (Bytes → Bytes) → Bytes → Dict Bytes Bytes
unfolding slices is_break split_value decode_item decode_items
decode_env_buf decode buf = decode_items decode [] (slices env_value none buf)
