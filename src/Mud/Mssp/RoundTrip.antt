-- ===== src/Mud/Mssp/RoundTrip.antt =====
-- What `mssp_encode` writes, `mssp_decode` reads.
use telnetlib.Prelude.{
  ℕ, ◌<◌, false, List, [], ◌∷◌, ◌++◌, Option, none, some, ◌≡◌, refl, Bytes, elem, length, All,
  bytes_eq, append_assoc, append-nil, sym, ap,
}
use telnetlib.Telopt.{mssp_var, mssp_val}
use telnetlib.Dict
use telnetlib.Dict.{Dict}
use telnetlib.Mud.Text.{Stops, read_until-append, decode_best_effort-some}
use telnetlib.Mud.Mssp.{
  MsspValue, one, many, stops, values_of, add_value, encode_values, mssp_encode, mssp_decode,
}
use telnetlib.Mud.Mssp.Total.{Gives, Gives-nil, Gives-var, Gives-val}

-- A list has two values or more.
abbrev IsCanonical : MsspValue → Type 0
IsCanonical (one v) = Unit
IsCanonical (many []) = ⊥
IsCanonical (many (v ∷ [])) = ⊥
IsCanonical (many (v ∷ w ∷ vs)) = Unit

-- add_value for each
abbrev add_values : Dict Bytes MsspValue → Bytes → List Bytes → Dict Bytes MsspValue
add_values d k [] = d
add_values d k (v ∷ vs) = add_values (add_value d (some k) v) k vs

add_value-first :
    (d : Dict Bytes MsspValue) (k v : Bytes)
    → Dict.get d k ≡ none
    → add_value d (some k) v ≡ d ++ ((k, one v) ∷ [])
unfolding add_value
add_value-first d k v h = rw (add_value, h) (Dict.put-new d k (one v) h)

add_value-second :
    (d : Dict Bytes MsspValue) (k v w : Bytes)
    → Dict.get d k ≡ none
    → add_value (d ++ ((k, one v) ∷ [])) (some k) w ≡ d ++ ((k, many (v ∷ w ∷ [])) ∷ [])
unfolding add_value
add_value-second d k v w h =
    rw (add_value, Dict.get-last d k (one v) h) (Dict.put-last d k (one v) (many (v ∷ w ∷ [])) h)

add_value-again :
    (d : Dict Bytes MsspValue) (k : Bytes) (olds : List Bytes) (w : Bytes)
    → Dict.get d k ≡ none
    → add_value (d ++ ((k, many olds) ∷ [])) (some k) w ≡ d ++ ((k, many (olds ++ (w ∷ []))) ∷ [])
unfolding add_value
add_value-again d k olds w h =
    rw (add_value, Dict.get-last d k (many olds) h)
      (Dict.put-last d k (many olds) (many (olds ++ (w ∷ []))) h)

add_values-many :
    (ws olds : List Bytes) (k : Bytes) (d : Dict Bytes MsspValue)
    → Dict.get d k ≡ none
    → add_values (d ++ ((k, many olds) ∷ [])) k ws ≡ d ++ ((k, many (olds ++ ws)) ∷ [])
add_values-many [] olds k d h = rw (append-nil olds)
add_values-many (w ∷ ws) olds k d h =
    rw (add_value-again d k olds w h, add_values-many ws (olds ++ (w ∷ [])) k d h)
      (ap (λ vs. d ++ ((k, many vs) ∷ [])) (append_assoc olds (w ∷ []) ws))

add_values-new :
    (value : MsspValue) (k : Bytes) (d : Dict Bytes MsspValue)
    → IsCanonical value
    → Dict.get d k ≡ none
    → add_values d k (values_of value) ≡ d ++ ((k, value) ∷ [])
add_values-new (one v) k d c h = add_value-first d k v h
add_values-new (many []) k d c h = absurd c
add_values-new (many (v ∷ [])) k d c h = absurd c
add_values-new (many (v ∷ w ∷ vs)) k d c h =
    rw (add_values, add_value-first d k v h, add_value-second d k v w h)
      (add_values-many vs (v ∷ w ∷ []) k d h)

module _ (encode : Bytes → Bytes) (decode : Bytes → Option Bytes) where
  -- The codec knows the text, and its bytes are none of the protocol's.
  pub record IsMsspText (t : Bytes) : Type 0 where
    pub known : decode (encode t) ≡ some t
    pub clean : All (λ c. elem c stops ≡ false) (encode t)

  abbrev pub ArePlainVariables : Dict Bytes MsspValue → Type 0
  ArePlainVariables [] = Unit
  ArePlainVariables ((key, value) ∷ variables) =
      IsMsspText key
      × All IsMsspText (values_of value)
      × IsCanonical value
      × (Dict.get variables key ≡ none)
      × ArePlainVariables variables

  Gives-text :
      (cur : Option Bytes) (d : Dict Bytes MsspValue) (v rest : Bytes) (r : Dict Bytes MsspValue)
      → IsMsspText v
      → Stops stops rest
      → Gives decode cur (add_value d cur v) rest r
      → Gives decode cur d (mssp_val ∷ (encode v ++ rest)) r
  Gives-text cur d v rest r t s k =
      let back = read_until-append stops (encode v) rest t.clean s in
      let known = decode_best_effort-some decode _ _ t.known in
      Gives-val decode cur d (encode v ++ rest) r (rw (back, known) k)

  Gives-key :
      (cur : Option Bytes) (d : Dict Bytes MsspValue) (key rest : Bytes) (r : Dict Bytes MsspValue)
      → IsMsspText key
      → Stops stops rest
      → Gives decode (some key) d rest r
      → Gives decode cur d (mssp_var ∷ (encode key ++ rest)) r
  Gives-key cur d key rest r t s k =
      let back = read_until-append stops (encode key) rest t.clean s in
      let known = decode_best_effort-some decode _ _ t.known in
      Gives-var decode cur d (encode key ++ rest) r (rw (back, known) k)

  Stops-values :
      (vs : List Bytes) (rest : Bytes)
      → Stops stops rest
      → Stops stops (encode_values encode vs ++ rest)
  unfolding encode_values elem
  Stops-values [] rest s = s
  Stops-values (v ∷ vs) rest s = refl

  Stops-variables : (env : Dict Bytes MsspValue) → Stops stops (mssp_encode encode env)
  unfolding mssp_encode elem
  Stops-variables [] = tt
  Stops-variables ((k, v) ∷ env) = refl

  Gives-values :
      (vs : List Bytes) (k : Bytes) (d : Dict Bytes MsspValue) (rest : Bytes)
      (r : Dict Bytes MsspValue)
      → All IsMsspText vs
      → Stops stops rest
      → Gives decode (some k) (add_values d k vs) rest r
      → Gives decode (some k) d (encode_values encode vs ++ rest) r
  unfolding encode_values
  Gives-values [] k d rest r a s g = g
  Gives-values (v ∷ vs) k d rest r (t, a) s g =
      rw (append_assoc (encode v) (encode_values encode vs) rest) (
        Gives-text (some k) d v (encode_values encode vs ++ rest) r t (Stops-values vs rest s)
          (Gives-values vs k (add_value d (some k) v) rest r a s g))

  variables_back :
      (env d : Dict Bytes MsspValue) (cur : Option Bytes)
      → ArePlainVariables env
      → All (λ item. Dict.get d item.0 ≡ none) env
      → Gives decode cur d (mssp_encode encode env) (d ++ env)
  unfolding mssp_encode
  variables_back [] d cur p a = rw (append-nil d) (Gives-nil decode cur d)
  variables_back ((k, v) ∷ env) d cur (kt, vt, c, new, p) (h, a) =
      Gives-key cur d k _ _ kt (Stops-values (values_of v) _ (Stops-variables env)) (
        Gives-values (values_of v) k d _ _ vt (Stops-variables env) (
          rw (add_values-new v k d c h, sym (append_assoc d ((k, v) ∷ []) env))
            (variables_back env (d ++ ((k, v) ∷ [])) (some k) p
              (Dict.new-append_one d env k v a new))))

  -- What `mssp_encode` writes for a dict of variables, `mssp_decode` gives back, whole and in order,
  -- a single value as a `str` and several as a list in their order, with any fuel above the number
  -- of bytes. The keys differ, no list has fewer than two values, the codec gives back each key and
  -- value, and no byte of an encoded one is MSSP_VAR or MSSP_VAL.
  pub mssp_decode-encode :
      (variables : Dict Bytes MsspValue) (fuel : ℕ)
      → ArePlainVariables variables
      → length (mssp_encode encode variables) < fuel
      → mssp_decode decode fuel (mssp_encode encode variables) ≡ some variables
  unfolding mssp_decode
  mssp_decode-encode variables fuel p enough =
      variables_back variables [] none p (Dict.get_nil variables) fuel enough
