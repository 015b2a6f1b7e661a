-- ===== src/Mud/Msdp/RoundTrip.antt =====
-- What `msdp_encode` writes, `msdp_decode` reads.
use telnetlib.Prelude.{
  ℕ, zero, suc, ◌*◌, ◌<◌, Bool, false, ◌||◌, [], ◌∷◌, ◌++◌, Option, some, ◌≡◌, refl, arith, ap,
  ◌==◌, nat_eq, bytes_eq, Bytes, elem, All, length, length-append, append_assoc,
}
use telnetlib.Telopt.{
  msdp_var, msdp_val, msdp_table_open, msdp_table_close, msdp_array_open, msdp_array_close,
}
use telnetlib.Mud.Text.{Stops, read_until-append, decode_best_effort-some}
use telnetlib.Mud.Msdp.{
  Value, Fields, Items, text, table, array, no_fields, field, no_items, item, done, delimiters,
  put_field, append_item, skip_val, read_key, read_string, encode_value, encode_fields,
  encode_items, msdp_encode, parse_value, parse_table, parse_array, parse_from, msdp_decode,
}

abbrev pub msdp_bytes : Bytes
msdp_bytes =
    msdp_var ∷ msdp_val ∷ msdp_table_open ∷ msdp_table_close ∷ msdp_array_open ∷ msdp_array_close
    ∷ []

-- A claim about every fuel above a bound is shown for the successors.
above : (low : ℕ) (C : ℕ → Type 0) → ((n : ℕ) → low < suc n → C (suc n)) → (n : ℕ) → low < n → C n
above low C step zero lt = absurd (omega arith)
above low C step (suc n) lt = step n lt

abbrev pub has_field : Fields → Bytes → Bool
has_field no_fields k = false
has_field (field j v fs) k = j == k || has_field fs k

-- the two joined
abbrev append_fields : Fields → Fields → Fields
append_fields no_fields gs = gs
append_fields (field k v fs) gs = field k v (append_fields fs gs)

abbrev append_items : Items → Items → Items
append_items no_items ys = ys
append_items (item v xs) ys = item v (append_items xs ys)

append_fields-nil : (fs : Fields) → append_fields fs no_fields ≡ fs
append_fields-nil no_fields = refl
append_fields-nil (field k v fs) = ap (field k v) (append_fields-nil fs)

append_items-nil : (xs : Items) → append_items xs no_items ≡ xs
append_items-nil no_items = refl
append_items-nil (item v xs) = ap (item v) (append_items-nil xs)

append_fields-put :
    (fs gs : Fields) (k : Bytes) (v : Value)
    → has_field fs k ≡ false
    → append_fields (put_field fs k v) gs ≡ append_fields fs (field k v gs)
unfolding put_field
append_fields-put no_fields gs k v h = refl
append_fields-put (field j w fs) gs k v h = ground (arith, append_fields-put fs gs k v)

append_items-append :
    (xs ys : Items) (v : Value) → append_items (append_item xs v) ys ≡ append_items xs (item v ys)
unfolding append_item
append_items-append no_items ys v = refl
append_items-append (item w xs) ys v = ap (item w) (append_items-append xs ys v)

has_field-put :
    (fs : Fields) (k j : Bytes) (v : Value)
    → has_field (put_field fs k v) j ≡ (k == j || has_field fs j)
unfolding put_field
has_field-put no_fields k j v = refl
has_field-put (field i w fs) k j v = ground (arith, has_field-put fs k j v, bytes_eq.equal_iff i k)

-- No key of the second is one of the first.
abbrev New : Fields → Fields → Type 0
New fs no_fields = Unit
New fs (field k v gs) = (has_field fs k ≡ false) × New fs gs

New-put :
    (fs gs : Fields) (k : Bytes) (v : Value)
    → New fs gs
    → has_field gs k ≡ false
    → New (put_field fs k v) gs
New-put fs no_fields k v n h = tt
New-put fs (field j w gs) k v (n, ns) h = (
  ground (arith, has_field-put fs k j v, bytes_eq.equal_iff k j, bytes_eq.equal_iff j k),
  New-put fs gs k v ns (ground arith),
)

New-nothing : (gs : Fields) → New no_fields gs
New-nothing no_fields = tt
New-nothing (field k v gs) = (refl, New-nothing gs)

module _ (encode : Bytes → Bytes) (decode : Bytes → Option Bytes) where
  -- The codec knows the text, and its bytes are none of the protocol's.
  pub record IsText (t : Bytes) : Type 0 where
    pub known : decode (encode t) ≡ some t
    pub clean : All (λ c. elem c msdp_bytes ≡ false) (encode t)

  -- Each text is such a text, and the keys of each table are different.
  abbrev mutual
    pub IsPlain : Value → Type 0
    IsPlain (text t) = IsText t
    IsPlain (table fs) = ArePlainFields fs
    IsPlain (array xs) = ArePlainItems xs

    pub ArePlainFields : Fields → Type 0
    ArePlainFields no_fields = Unit
    ArePlainFields (field k v fs) =
        IsText k × IsPlain v × (has_field fs k ≡ false) × ArePlainFields fs

    pub ArePlainItems : Items → Type 0
    ArePlainItems no_items = Unit
    ArePlainItems (item v xs) = IsPlain v × ArePlainItems xs

  clean_text :
      (buf : Bytes)
      → All (λ c. elem c msdp_bytes ≡ false) buf
      → All (λ c. elem c delimiters ≡ false) buf
  unfolding elem
  clean_text [] a = tt
  clean_text (c ∷ cs) (h, a) = (ground arith, clean_text cs a)

  clean_key :
      (buf : Bytes)
      → All (λ c. elem c msdp_bytes ≡ false) buf
      → All (λ c. elem c (msdp_val ∷ msdp_var ∷ []) ≡ false) buf
  unfolding elem
  clean_key [] a = tt
  clean_key (c ∷ cs) (h, a) = (ground arith, clean_key cs a)

  read_key-text :
      (k rest : Bytes)
      → IsText k
      → read_key decode (encode k ++ (msdp_val ∷ rest)) ≡ (k, msdp_val ∷ rest)
  unfolding read_key elem
  read_key-text k rest h =
      rw
        (
          read_until-append (msdp_val ∷ msdp_var ∷ []) (encode k) (msdp_val ∷ rest)
              (clean_key _ h.clean) refl,
          decode_best_effort-some decode _ _ h.known,
        )
        refl

  read_string-text :
      (buf t rest : Bytes)
      → decode buf ≡ some t
      → All (λ c. elem c msdp_bytes ≡ false) buf
      → Stops delimiters rest
      → read_string decode (buf ++ rest) ≡ (t, rest)
  unfolding read_string
  read_string-text buf t rest e a s =
      rw
        (
          read_until-append delimiters buf rest (clean_text buf a) s,
          decode_best_effort-some decode buf t e,
        )
        refl

  -- a text opens neither a table nor an array
  parse_value-text :
      (f : ℕ) (buf t rest : Bytes)
      → decode [] ≡ some []
      → decode buf ≡ some t
      → All (λ c. elem c msdp_bytes ≡ false) buf
      → Stops delimiters rest
      → parse_value decode (suc f) (buf ++ rest) ≡ done (text t) rest
  unfolding parse_value elem
  parse_value-text f [] t [] nothing e a s = ground (arith, nothing, e)
  parse_value-text f [] t (c ∷ cs) nothing e a s =
      ground (arith, read_string-text [] t (c ∷ cs) e a s)
  parse_value-text f (b ∷ bs) t rest nothing e (h, a) s =
      ground (arith, h, read_string-text (b ∷ bs) t rest e (h, a) s)

  -- With fuel above the bound, the parser reads `a` off `printed` and leaves what follows.
  abbrev ReadsValue : Value → Type 0
  ReadsValue v =
      IsPlain v
      → (rest : Bytes) → Stops delimiters rest
      → (f : ℕ) → 2 * length (encode_value encode v) < f
      → parse_value decode f (encode_value encode v ++ rest) ≡ done v rest

  abbrev ReadsFields : Fields → Type 0
  ReadsFields gs =
      ArePlainFields gs
      → (fs : Fields) → New fs gs
      → (rest : Bytes) (f : ℕ) → suc (2 * length (encode_fields encode gs)) < f
      → parse_table decode f fs (encode_fields encode gs ++ (msdp_table_close ∷ rest))
        ≡ done (append_fields fs gs) rest

  abbrev ReadsItems : Items → Type 0
  ReadsItems ys =
      ArePlainItems ys
      → (xs : Items) (rest : Bytes) (f : ℕ) → suc (2 * length (encode_items encode ys)) < f
      → parse_array decode f xs (encode_items encode ys ++ (msdp_array_close ∷ rest))
        ≡ done (append_items xs ys) rest

  -- what follows a value in a table or an array
  Stops-fields :
      (fs : Fields) (rest : Bytes)
      → Stops delimiters (encode_fields encode fs ++ (msdp_table_close ∷ rest))
  unfolding encode_fields elem
  Stops-fields no_fields rest = refl
  Stops-fields (field k v fs) rest = refl

  Stops-items :
      (xs : Items) (rest : Bytes)
      → Stops delimiters (encode_items encode xs ++ (msdp_array_close ∷ rest))
  unfolding encode_items elem
  Stops-items no_items rest = refl
  Stops-items (item v xs) rest = refl

  module _ (nothing : decode [] ≡ some []) where
    table_value : (fs : Fields) → ReadsFields fs → ReadsValue (table fs)
    unfolding parse_value encode_value
    table_value fs ih p rest s zero lt = absurd (omega arith)
    table_value fs ih p rest s (suc f) lt = simp (
      append_assoc,
      ih p no_fields (New-nothing fs) rest f
          (omega (arith, lt, length-append (encode_fields encode fs) (msdp_table_close ∷ []))),
    )

    array_value : (xs : Items) → ReadsItems xs → ReadsValue (array xs)
    unfolding parse_value encode_value
    array_value xs ih p rest s zero lt = absurd (omega arith)
    array_value xs ih p rest s (suc f) lt = simp (
      append_assoc,
      ih p no_items rest f
          (omega (arith, lt, length-append (encode_items encode xs) (msdp_array_close ∷ []))),
    )

    field_table :
        (k : Bytes) (v : Value) (gs : Fields)
        → ReadsValue v
        → ReadsFields gs
        → ReadsFields (field k v gs)
    unfolding parse_table encode_fields skip_val put_field
    field_table k v gs ih ihs p fs n rest zero lt = absurd (omega arith)
    field_table k v gs ih ihs (kt, vp, hk, ps) fs (new, news) rest (suc f) lt =
        let behind = encode_fields encode gs ++ (msdp_table_close ∷ rest) in
        let key = read_key-text k (encode_value encode v ++ behind) kt in
        simp (
          append_assoc,
          key,
          ih vp behind (Stops-fields gs rest) f (
              omega (
                arith,
                lt,
                length-append (encode_value encode v) (encode_fields encode gs),
                length-append (encode k)
                    (msdp_val ∷ (encode_value encode v ++ encode_fields encode gs)),
              )),
          ihs ps (put_field fs k v) (New-put fs gs k v news hk) rest f (
              omega (
                arith,
                lt,
                length-append (encode_value encode v) (encode_fields encode gs),
                length-append (encode k)
                    (msdp_val ∷ (encode_value encode v ++ encode_fields encode gs)),
              )),
          append_fields-put fs gs k v new,
        )

    item_array : (v : Value) (ys : Items) → ReadsValue v → ReadsItems ys → ReadsItems (item v ys)
    unfolding parse_array encode_items skip_val
    item_array v ys ih ihs p xs rest zero lt = absurd (omega arith)
    item_array v ys ih ihs (vp, ps) xs rest (suc f) lt =
        let sizes = length-append (encode_value encode v) (encode_items encode ys) in
        simp (
          append_assoc,
          ih vp (encode_items encode ys ++ (msdp_array_close ∷ rest)) (Stops-items ys rest) f
              (omega (arith, lt, sizes)),
          ihs ps (append_item xs v) rest f (omega (arith, lt, sizes)),
          append_items-append xs ys v,
        )

    value_back : (v : Value) → ReadsValue v
    unfolding parse_value encode_value
    value_back v = elim v as ReadsValue ReadsFields ReadsItems [
      | text t ↦ λ p rest s.
          above _ _ λ f h. parse_value-text f (encode t) t rest nothing p.known p.clean s
      | table (fs → ih) ↦ table_value fs ih
      | array (xs → ih) ↦ array_value xs ih
      | no_fields ↦ λ p fs n rest. above _ _ λ f h. rw (append_fields-nil fs)
      | field k (v → ih) (gs → ihs) ↦ field_table k v gs ih ihs
      | no_items ↦ λ p xs rest. above _ _ λ f h. rw (append_items-nil xs)
      | item (v → ih) (ys → ihs) ↦ item_array v ys ih ihs
    ]

    -- what follows a value at the top
    Stops-variables : (fs : Fields) → Stops delimiters (encode_fields encode fs)
    unfolding encode_fields elem
    Stops-variables no_fields = tt
    Stops-variables (field k v fs) = refl

    from_back :
        (gs fs : Fields) (f : ℕ)
        → ArePlainFields gs
        → New fs gs
        → suc (2 * length (encode_fields encode gs)) < f
        → parse_from decode f fs (encode_fields encode gs) ≡ done (append_fields fs gs) []
    unfolding parse_from encode_fields put_field
    from_back gs fs zero p n lt = absurd (omega arith)
    from_back no_fields fs (suc f) p n lt = rw (append_fields-nil fs)
    from_back (field k v gs) fs (suc f) (kt, vp, hk, ps) (new, news) lt =
        let key = read_key-text k (encode_value encode v ++ encode_fields encode gs) kt in
        let sizes = length-append (encode_value encode v) (encode_fields encode gs) in
        let whole =
          length-append (encode k)
            (msdp_val ∷ (encode_value encode v ++ encode_fields encode gs)) in
        simp (
          key,
          value_back v vp (encode_fields encode gs) (Stops-variables gs) f
              (omega (arith, lt, sizes, whole)),
          from_back gs (put_field fs k v) f ps (New-put fs gs k v news hk)
              (omega (arith, lt, sizes, whole)),
          append_fields-put fs gs k v new,
        )

    -- What `msdp_encode` writes for a dict of variables, with tables and lists within each other to
    -- any depth, `msdp_decode` gives back, whole and in order, and fuel of twice the length and two
    -- more is enough. The codec gives back each text and decodes no bytes to the empty text, no
    -- encoded text holds one of the six bytes of the protocol, and the keys of each table differ.
    pub msdp_decode-encode :
        (variables : Fields) (fuel : ℕ)
        → ArePlainFields variables
        → suc (2 * length (msdp_encode encode variables)) < fuel
        → msdp_decode decode fuel (msdp_encode encode variables) ≡ done variables []
    unfolding msdp_decode msdp_encode
    msdp_decode-encode variables fuel p enough =
        from_back variables no_fields fuel p (New-nothing variables) enough
