-- ===== src/Environ/RoundTrip.antt =====
-- Decoding an encoded environment gives it back.
use telnetlib.Prelude.{
  ℕ, List, [], ◌∷◌, ◌++◌, none, some, nat_eq, bytes_eq, Bytes, ◌≡◌, ◌≢◌, refl, ap, sym, ◌∙◌, arith,
  All, append-nil, append_assoc,
}
use telnetlib.Telopt.{env_var, env_value, env_esc}
use telnetlib.Dict
use telnetlib.Dict.{Dict}
use telnetlib.Environ.{
  escape_environ, encode_env_buf, is_break, slices, split_value, decode_item, decode_items,
  decode_env_buf,
}
use telnetlib.Environ.Escape.{unescape-escape_environ, escape_environ-cons}

-- the last byte of `b`, or `p`
abbrev pub last_of : ℕ → Bytes → ℕ
last_of p [] = p
last_of p (c ∷ cs) = last_of c cs

escape_environ-nil : escape_environ [] ≡ []
unfolding escape_environ
escape_environ-nil = refl

last_of-escape_environ : (p : ℕ) (b : Bytes) → last_of p (escape_environ b) ≡ last_of p b
last_of-escape_environ p [] = rw escape_environ-nil
last_of-escape_environ p (c ∷ cs) =
    rw escape_environ-cons (ground (arith, last_of-escape_environ c cs))

-- No byte of an escaped text ends a slice.
slices-escape :
    (p : ℕ) (cur b rest : Bytes)
    → slices p (some cur) (escape_environ b ++ rest)
      ≡ slices (last_of p b) (some (cur ++ escape_environ b)) rest
unfolding slices is_break
slices-escape p cur [] rest = rw (escape_environ-nil, append-nil)
slices-escape p cur (c ∷ cs) rest = rw escape_environ-cons (
    ground (
      arith,
      slices-escape c ((cur ++ (env_esc ∷ [])) ++ (c ∷ [])) cs rest,
      slices-escape c (cur ++ (c ∷ [])) cs rest,
      append_assoc (cur ++ (env_esc ∷ [])) (c ∷ []) (escape_environ cs),
      append_assoc cur (env_esc ∷ []) (c ∷ escape_environ cs),
      append_assoc cur (c ∷ []) (escape_environ cs),
    ))

split_value-escape :
    (k v : Bytes)
    → All (λ c. c ≢ env_value) k
    → split_value (escape_environ k ++ (env_value ∷ v)) ≡ (escape_environ k, some v)
unfolding split_value
split_value-escape [] v h = rw escape_environ-nil
split_value-escape (c ∷ cs) v h =
    rw escape_environ-cons (ground (arith, h.0, split_value-escape cs v h.1))

-- No name stands twice.
abbrev pub Distinct : Dict Bytes Bytes → Type 0
Distinct [] = Unit
Distinct ((key, value) ∷ env) = (Dict.get env key ≡ none) × Distinct env

slices-break :
    (p : ℕ) (cur rest : Bytes)
    → p ≢ env_esc
    → slices p (some cur) (env_var ∷ rest) ≡ cur ∷ slices env_var (some []) rest
unfolding slices is_break
slices-break p cur rest h = ground arith

slices-value :
    (p : ℕ) (cur rest : Bytes)
    → slices p (some cur) (env_value ∷ rest)
      ≡ slices env_value (some (cur ++ (env_value ∷ []))) rest
unfolding slices is_break
slices-value p cur rest = refl

-- Over one name and value, both escaped.
slices-item :
    (k v rest : Bytes)
    → slices env_var (some []) (escape_environ k ++ (env_value ∷ (escape_environ v ++ rest)))
      ≡ slices
          (last_of env_value v)
          (some (escape_environ k ++ (env_value ∷ escape_environ v)))
          rest
slices-item k v rest =
    slices-escape env_var [] k _
    ∙ slices-value _ (escape_environ k) _
    ∙ slices-escape env_value (escape_environ k ++ (env_value ∷ [])) v rest
    ∙ rw append_assoc

variables_new : (env : Dict Bytes Bytes) → All (λ item. Dict.get {V = Bytes} [] item.0 ≡ none) env
unfolding Dict.get
variables_new [] = tt
variables_new (item ∷ env) = (refl, variables_new env)

module _ (encode decode : Bytes → Bytes) where
  -- What the wire format and the codec can carry: both texts are in the codec's alphabet, no VALUE
  -- byte is in the name, and no ESC byte ends the value.
  pub record IsSendable (item : Bytes × Bytes) : Type 0 where
    pub name_known : decode (encode item.0) ≡ item.0
    pub value_known : decode (encode item.1) ≡ item.1
    pub name_plain : All (λ c. c ≢ env_value) (encode item.0)
    pub value_ends : last_of env_value (encode item.1) ≢ env_esc

  abbrev slice_of : Bytes × Bytes → Bytes
  slice_of (key, value) = escape_environ (encode key) ++ (env_value ∷ escape_environ (encode value))

  decode_item-slice_of :
      (item : Bytes × Bytes) (env : Dict Bytes Bytes)
      → IsSendable item
      → decode_item decode env (slice_of item) ≡ Dict.put env item.0 item.1
  unfolding decode_item
  decode_item-slice_of (key, value) env s = rw (
    split_value-escape (encode key) (escape_environ (encode value)) s.name_plain,
    unescape-escape_environ (encode key),
    s.name_known,
    unescape-escape_environ (encode value),
    s.value_known,
  )

  abbrev slices_of : Dict Bytes Bytes → List Bytes
  slices_of [] = []
  slices_of (item ∷ env) = slice_of item ∷ slices_of env

  slices-encode :
      (env : Dict Bytes Bytes) (p : ℕ) (cur : Bytes)
      → p ≢ env_esc
      → All IsSendable env
      → slices p (some cur) (encode_env_buf encode env) ≡ cur ∷ slices_of env
  unfolding encode_env_buf
  slices-encode [] p cur h a = unfold slices in refl
  slices-encode ((key, value) ∷ env) p cur h (s, a) = rw append_assoc (
      slices-break p cur _ h
      ∙ ap (◌∷◌ cur) (
          slices-item (encode key) (encode value) (encode_env_buf encode env)
          ∙ slices-encode env _ _ s.value_ends a))

  slices-encode_start :
      (env : Dict Bytes Bytes)
      → All IsSendable env
      → slices env_value none (encode_env_buf encode env) ≡ slices_of env
  unfolding encode_env_buf
  slices-encode_start [] a = unfold slices in refl
  slices-encode_start ((key, value) ∷ env) (s, a) = rw append_assoc (
      unfold slices is_break in
      refl
      ∙ slices-item (encode key) (encode value) (encode_env_buf encode env)
      ∙ slices-encode env _ _ s.value_ends a)

  decode_items-put :
      (env acc : Dict Bytes Bytes)
      → All IsSendable env
      → All (λ item. Dict.get acc item.0 ≡ none) env
      → Distinct env
      → decode_items decode acc (slices_of env) ≡ acc ++ env
  unfolding decode_items
  decode_items-put [] acc a f d = sym (append-nil acc)
  decode_items-put ((key, value) ∷ env) acc (s, a) f d =
      ap (λ e. decode_items decode e (slices_of env))
        (decode_item-slice_of (key, value) acc s ∙ Dict.put-new acc key value f.0)
      ∙ decode_items-put env _ a (Dict.new-append_one acc env key value f.1 d.0) d.1
      ∙ append_assoc acc ((key, value) ∷ []) env

  -- For an environment of distinct names, each item of which is sendable with its codec, decoding
  -- the encoded buffer gives the same names and values, in the same order.
  pub decode-encode_env_buf :
      (env : Dict Bytes Bytes)
      → Distinct env
      → All IsSendable env
      → decode_env_buf decode (encode_env_buf encode env) ≡ env
  unfolding decode_env_buf
  decode-encode_env_buf env d a =
      rw (slices-encode_start env a) (decode_items-put env [] a (variables_new env) d)
