-- ===== src/Mud/Codecs/Gmcp.antt =====
-- What `gmcp_encode` writes, `gmcp_decode` reads.
use telnetlib.Prelude.{
  ℕ, false, [], ◌∷◌, ◌++◌, Option, none, some, ◌≡◌, refl, Bytes, elem, All, append-nil, ap,
}
use telnetlib.Exec.{ok}
use telnetlib.Mud.Text.{read_until-append, decode_best_effort-some}
use telnetlib.Mud.Codecs.{
  Json, JsonLib, null, boolean, number, string, list, object, space, split_space, gmcp_encode,
  gmcp_data, gmcp_decode,
}

split_space-alone :
    (buf : Bytes) → All (λ c. elem c (space ∷ []) ≡ false) buf → split_space buf ≡ (buf, none)
unfolding split_space
split_space-alone buf a =
    let whole = read_until-append (space ∷ []) buf [] a tt in rw (rw (append-nil buf) at whole) refl

split_space-append :
    (buf rest : Bytes)
    → All (λ c. elem c (space ∷ []) ≡ false) buf
    → split_space (buf ++ (space ∷ rest)) ≡ (buf, some rest)
unfolding split_space elem
split_space-append buf rest a = rw (read_until-append (space ∷ []) buf (space ∷ rest) a refl)

module _ (json : JsonLib) (encode : Bytes → Bytes) (decode : Bytes → Option Bytes) where
  -- The codec knows the name, and there is no space in it.
  pub record IsName (name : Bytes) : Type 0 where
    pub known : decode (encode name) ≡ some name
    pub clean : All (λ c. elem c (space ∷ []) ≡ false) (encode name)

  -- Python's None, or a value that the JSON library and the codec give back.
  abbrev pub IsJson : Json → Type 0
  IsJson null = Unit
  IsJson data_ =
      (c : ℕ) × (cs : Bytes) × (decode (encode (json.dumps data_)) ≡ some (json.dumps data_))
      × (json.strip (json.dumps data_) ≡ c ∷ cs)
      × (json.loads (c ∷ cs) ≡ some data_)

  gmcp_decode-alone :
      (name : Bytes) → IsName name → gmcp_decode json decode (encode name) ≡ ok (name, null)
  unfolding gmcp_decode
  gmcp_decode-alone name n =
      rw
        (
          gmcp_decode,
          split_space-alone (encode name) n.clean,
          decode_best_effort-some decode _ _ n.known,
        )
        refl

  gmcp_decode-space :
      (name text buf : Bytes)
      → IsName name
      → decode buf ≡ some text
      → gmcp_decode json decode (encode name ++ (space ∷ buf))
        ≡ gmcp_data json name (json.strip text)
  unfolding gmcp_decode
  gmcp_decode-space name text buf n e =
      let split = split_space-append (encode name) buf n.clean in
      rw
        (
          gmcp_decode,
          split,
          ap (λ parts. parts.0) split,
          decode_best_effort-some decode _ _ n.known,
          decode_best_effort-some decode _ _ e,
        )
        refl

  gmcp_back :
      (name : Bytes) (data_ : Json)
      → IsName name
      → (c : ℕ) × (cs : Bytes) × (decode (encode (json.dumps data_)) ≡ some (json.dumps data_))
        × (json.strip (json.dumps data_) ≡ c ∷ cs)
        × (json.loads (c ∷ cs) ≡ some data_)
      → gmcp_decode json decode (encode name ++ (space ∷ encode (json.dumps data_)))
        ≡ ok (name, data_)
  unfolding gmcp_data
  gmcp_back name data_ n (c, cs, known, stripped, loaded) =
      rw (gmcp_decode-space name (json.dumps data_) _ n known, stripped, gmcp_data, loaded) refl

  -- What `gmcp_encode` writes, `gmcp_decode` gives back without an error, the name of the message and
  -- its data, None included. There is no space in the encoded name, the codec gives back the name
  -- and the JSON text, and the JSON library reads what it has written, of which `strip` leaves a
  -- character at least.
  pub gmcp_decode-encode :
      (name : Bytes) (data_ : Json)
      → IsName name
      → IsJson data_
      → gmcp_decode json decode (gmcp_encode json encode name data_) ≡ ok (name, data_)
  unfolding gmcp_encode
  gmcp_decode-encode name null n j = gmcp_decode-alone name n
  gmcp_decode-encode name (boolean b) n j = gmcp_back name (boolean b) n j
  gmcp_decode-encode name (number t) n j = gmcp_back name (number t) n j
  gmcp_decode-encode name (string t) n j = gmcp_back name (string t) n j
  gmcp_decode-encode name (list js) n j = gmcp_back name (list js) n j
  gmcp_decode-encode name (object ms) n j = gmcp_back name (object ms) n j
