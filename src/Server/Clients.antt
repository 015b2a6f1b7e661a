-- ===== src/Server/Clients.antt =====
-- server.py: the queue of clients that `wait_for_client` takes from, and the list of connections.
use telnetlib.Prelude.{
  ℕ, zero, suc, ◌-◌, ◌≤◌, Bool, true, false, List, [], ◌∷◌, ◌++◌, append_assoc, append-nil, Option,
  none, some, if◌then◌else◌, ◌≡◌, refl, sym, ap, ◌∙◌, Bool-cases, inl, inr, length, length-append,
  drop, ltb, arith,
}

-- asyncio.Queue with a size that is not 0
pub record Queue {ℓ} (A : Type ℓ) : Type ℓ where
  pub maxsize : ℕ
  pub items : List A

module _ {ℓ} {A : Type ℓ} where
  -- Queue.put_nowait; none is QueueFull
  unfoldable pub put_nowait : Queue A → A → Option (Queue A)
  put_nowait q x =
      if ltb (length q.items) q.maxsize
      then some (record q { items = q.items ++ (x ∷ []) })
      else none

  -- Queue.get_nowait; none is QueueEmpty
  unfoldable pub get_nowait : Queue A → Option (A × Queue A)
  get_nowait q = elim q.items [ [] ↦ none | ◌∷◌ x xs ↦ some (x, record q { items = xs }) ]

  abbrev pub remaining : Queue A → Option (A × Queue A) → Queue A
  remaining q none = q
  remaining q (some (x, q')) = q'

  abbrev pub or_discarding : Queue A → A → Option (Queue A) → Option (Queue A)
  or_discarding q x (some q') = some q'
  or_discarding q x none = put_nowait (remaining q (get_nowait q)) x

  -- _enqueue_client; none is a QueueFull that is not caught
  unfoldable pub enqueue_client : Queue A → A → Option (Queue A)
  enqueue_client q x = or_discarding q x (put_nowait q x)

  -- one client after the other
  unfoldable pub enqueue_all : Queue A → List A → Option (Queue A)
  enqueue_all q [] = some q
  enqueue_all q (x ∷ xs) = elim (enqueue_client q x) [ none ↦ none | some q' ↦ enqueue_all q' xs ]

  -- the last `n` of a list
  abbrev pub last_ones : ℕ → List A → List A
  last_ones n xs = drop (length xs - n) xs

  -- `clients` and `_register_protocol` drop the protocols that are closing.
  unfoldable pub open_ones : (A → Bool) → List A → List A
  open_ones closing [] = []
  open_ones closing (p ∷ ps) =
      let rest = open_ones closing ps in if closing p then rest else p ∷ rest

  -- Server.clients
  unfoldable pub clients : (A → Bool) → List A → List A × List A
  clients closing protocols =
      let open_protocols = open_ones closing protocols in (open_protocols, open_protocols)

  -- Server._register_protocol
  unfoldable pub register_protocol : (A → Bool) → List A → A → List A
  register_protocol closing protocols p = open_ones closing protocols ++ (p ∷ [])

  drop-append_one :
      (n : ℕ) (xs : List A) (x : A)
      → n ≤ length xs
      → drop n (xs ++ (x ∷ [])) ≡ drop n xs ++ (x ∷ [])
  drop-append_one zero xs x h = refl
  drop-append_one (suc n) [] x h = absurd (ground (arith, h))
  drop-append_one (suc n) (y ∷ ys) x h = drop-append_one n ys x (omega (arith, h))

  length-drop : (n : ℕ) (xs : List A) → length (drop n xs) ≡ length xs - n
  length-drop zero xs = omega arith
  length-drop (suc n) [] = omega arith
  length-drop (suc n) (x ∷ xs) = omega (arith, length-drop n xs)

  drop-drop_one : (n : ℕ) (xs : List A) → drop 1 (drop n xs) ≡ drop (suc n) xs
  drop-drop_one zero xs = refl
  drop-drop_one (suc n) [] = refl
  drop-drop_one (suc n) (x ∷ xs) = drop-drop_one n xs

  -- a list of at most `n` with one more, the first dropped where it is full
  abbrev pushed : ℕ → A → List A → List A
  pushed n x ys = if ltb (length ys) n then ys ++ (x ∷ []) else drop 1 ys ++ (x ∷ [])

  pushed-full :
      (n : ℕ) (x : A) (ys : List A)
      → ltb (length ys) n ≡ false
      → pushed n x ys ≡ drop 1 ys ++ (x ∷ [])
  pushed-full n x ys e = ap (λ b. if b then ys ++ (x ∷ []) else drop 1 ys ++ (x ∷ [])) e

  pushed-free :
      (n : ℕ) (x : A) (ys : List A) → ltb (length ys) n ≡ true → pushed n x ys ≡ ys ++ (x ∷ [])
  pushed-free n x ys e = ap (λ b. if b then ys ++ (x ∷ []) else drop 1 ys ++ (x ∷ [])) e

  -- The last ones, after one more.
  last_ones-append_one :
      (n : ℕ) (seen : List A) (x : A)
      → last_ones (suc n) (seen ++ (x ∷ [])) ≡ pushed (suc n) x (last_ones (suc n) seen)
  last_ones-append_one n seen x = elim (Bool-cases (ltb (length seen) (suc n))) [
    | inl e ↦
        let none_before : length (seen ++ (x ∷ [])) - suc n ≡ 0 =
          ground (arith, length-append seen (x ∷ []), e) in
        let none_now : length seen - suc n ≡ 0 = ground (arith, e) in
        ap (λ k. drop k (seen ++ (x ∷ []))) none_before
        ∙ sym (ap (λ k. pushed (suc n) x (drop k seen)) none_now ∙ pushed-free (suc n) x seen e)
    | inr e ↦
        let d = length seen - suc n in
        let one_more : length (seen ++ (x ∷ [])) - suc n ≡ suc d =
          ground (arith, length-append seen (x ∷ []), e) in
        let full : ltb (length (drop d seen)) (suc n) ≡ false =
          ground (arith, length-drop d seen, e) in
        ap (λ k. drop k (seen ++ (x ∷ []))) one_more
        ∙ (drop-append_one (suc d) seen x (ground (arith, e))
            ∙ (ap (λ ys. ys ++ (x ∷ [])) (sym (drop-drop_one d seen))
                ∙ sym (pushed-full (suc n) x (drop d seen) full)))
  ]

  enqueue_client-pushed :
      (n : ℕ) (items : List A) (x : A)
      → length items ≤ suc n
      → enqueue_client (record { maxsize = suc n; items = items }) x
        ≡ some (record { maxsize = suc n; items = pushed (suc n) x items })
  unfolding enqueue_client put_nowait get_nowait
  enqueue_client-pushed n [] x h = ground arith
  enqueue_client-pushed n (y ∷ ys) x h = ground (arith, h)

  last_ones-short : (n : ℕ) (xs : List A) → length (last_ones n xs) ≤ n
  last_ones-short n xs = omega (arith, length-drop (length xs - n) xs)

  enqueue_all-last_ones :
      (n : ℕ) (xs seen : List A)
      → enqueue_all (record { maxsize = suc n; items = last_ones (suc n) seen }) xs
        ≡ some (record { maxsize = suc n; items = last_ones (suc n) (seen ++ xs) })
  unfolding enqueue_all
  enqueue_all-last_ones n [] seen =
      ap (λ ys. some (record { maxsize = suc n; items = last_ones (suc n) ys }))
        (sym (append-nil seen))
  enqueue_all-last_ones n (x ∷ xs) seen =
      let go : Option (Queue A) → Option (Queue A) =
        λ o. elim o [ none ↦ none | some q ↦ enqueue_all q xs ] in
      ap go (
        enqueue_client-pushed n (last_ones (suc n) seen) x (last_ones-short (suc n) seen)
        ∙ ap (λ ys. some (record { maxsize = suc n; items = ys }))
            (sym (last_ones-append_one n seen x)))
      ∙ (enqueue_all-last_ones n xs (seen ++ (x ∷ []))
          ∙ ap (λ ys. some (record { maxsize = suc n; items = last_ones (suc n) ys }))
              (append_assoc seen (x ∷ []) xs))

-- Server.__init__
abbrev pub new_queue {ℓ} : (A : Type ℓ) → Queue A
new_queue A = record { maxsize = 1000; items = [] }

-- However many clients complete their negotiation while nobody waits for one, `_enqueue_client` never
-- raises, and the queue holds the last thousand of them, in the order in which they came.
pub enqueue_keeps_last {ℓ} :
    {A : Type ℓ} (clients : List A)
    → enqueue_all (new_queue A) clients
      ≡ some (record { maxsize = 1000; items = last_ones 1000 clients })
enqueue_keeps_last clients = enqueue_all-last_ones 999 clients []
