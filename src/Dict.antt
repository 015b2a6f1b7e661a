-- ===== src/Dict.antt =====
-- Python's `dict`: an association list in the order of insertion. A new key goes to the end, an
-- old key keeps its place.
use telnetlib.Prelude.{
  HasEq, ◌==◌, List, [], ◌∷◌, Option, none, some, if◌then◌else◌, ◌≡◌, refl, arith, All, false, ◌++◌,
}

abbrev pub Dict {ℓ κ} : Type ℓ → Type κ → Type (ℓ ⊔ κ)
Dict K V = List (K × V)

module _ {ℓ κ} {K : Type ℓ} {V : Type κ} ⦃e : HasEq K⦄ where
  -- d.get(k)
  unfoldable pub get : Dict K V → K → Option V
  get [] k = none
  get ((j, v) ∷ d) k = if j == k then some v else get d k

  -- d[k] = v
  unfoldable pub put : Dict K V → K → V → Dict K V
  put [] k v = (k, v) ∷ []
  put ((j, w) ∷ d) k v = if j == k then (j, v) ∷ d else (j, w) ∷ put d k v

  pub get-put :
      (d : Dict K V) (k j : K) (v : V) → get (put d k v) j ≡ (if k == j then some v else get d j)
  unfolding get put
  get-put [] k j v = refl
  get-put ((i, w) ∷ d) k j v =
      ground (arith, e.equal_iff k j, e.equal_iff i k, e.equal_iff i j, get-put d k j v)

  -- A new key goes to the end.
  pub put-new : (d : Dict K V) (k : K) (v : V) → get d k ≡ none → put d k v ≡ d ++ ((k, v) ∷ [])
  unfolding get put
  put-new [] k v h = refl
  put-new ((j, w) ∷ d) k v h = ground (arith, put-new d k v)

  get-append_one :
      (d : Dict K V) (k j : K) (v : V)
      → get d j ≡ none
      → (k == j) ≡ false
      → get (d ++ ((k, v) ∷ [])) j ≡ none
  unfolding get
  get-append_one [] k j v h ne = rw ne
  get-append_one ((i, w) ∷ d) k j v h ne = ground (arith, get-append_one d k j v)

  -- Keys that are new to `d` and differ from `k` are new after `k` too.
  pub new-append_one :
      (d env : Dict K V) (k : K) (v : V)
      → All (λ item. get d item.0 ≡ none) env
      → get env k ≡ none
      → All (λ item. get (d ++ ((k, v) ∷ [])) item.0 ≡ none) env
  unfolding get
  new-append_one d [] k v a h = tt
  new-append_one d ((j, w) ∷ env) k v (f, a) h = (
    get-append_one d k j v f (ground (arith, e.equal_iff k j, e.equal_iff j k)),
    new-append_one d env k v a (ground arith),
  )

  -- The last key is found behind others that differ from it.
  pub get-last :
      (d : Dict K V) (k : K) (v : V) → get d k ≡ none → get (d ++ ((k, v) ∷ [])) k ≡ some v
  unfolding get
  get-last [] k v h = ground (arith, e.equal_iff k k)
  get-last ((j, w) ∷ d) k v h = ground (arith, get-last d k v)

  -- It is replaced where it stands.
  pub put-last :
      (d : Dict K V) (k : K) (v w : V)
      → get d k ≡ none
      → put (d ++ ((k, v) ∷ [])) k w ≡ d ++ ((k, w) ∷ [])
  unfolding get put
  put-last [] k v w h = ground (arith, e.equal_iff k k)
  put-last ((j, u) ∷ d) k v w h = ground (arith, put-last d k v w)

  -- Every key is new to the empty dict.
  pub get_nil : (env : Dict K V) → All (λ item. get [] item.0 ≡ none) env
  unfolding get
  get_nil [] = tt
  get_nil (item ∷ env) = (refl, get_nil env)
