-- ===== src/Session/Requests/Batches.antt =====
-- The batches of `_batch_environ_keys`: none is lost, and each is short enough for a peer.
use telnetlib.Prelude.{
  ℕ, ◌+◌, ◌≤◌, true, List, [], ◌∷◌, ◌++◌, ◌≡◌, ◌⊎◌, inl, inr, refl, arith, Bytes, All, length,
  length-append, append_assoc, ltb, Bool-cases,
}
use telnetlib.Session.{EnvKey}
use telnetlib.Session.Requests.{
  key_bytes, environ_sb_max, is_nonempty, batches_from, batch_environ_keys, batch_bytes,
}

abbrev pub concat : List (List EnvKey) → List EnvKey
concat [] = []
concat (batch ∷ batches) = batch ++ concat batches

-- What one subnegotiation holds between `IAC SB` and `IAC SE`: the option, SEND, and the keys.
abbrev pub payload_length : (Bytes → Bytes) → List EnvKey → ℕ
payload_length encode batch = 2 + length (batch_bytes encode batch)

-- A batch that is not empty, and is within the limit or one key alone.
abbrev pub IsShort : (Bytes → Bytes) → List EnvKey → Type 0
IsShort encode batch =
    (is_nonempty batch ≡ true)
    × ((payload_length encode batch ≤ environ_sb_max) ⊎ ((k : EnvKey) × (batch ≡ k ∷ [])))

module _ (encode : Bytes → Bytes) where
  batches_from-concat :
      (ks current : List EnvKey) (size : ℕ)
      → concat (batches_from encode ks current size) ≡ current ++ ks
  unfolding batches_from
  batches_from-concat [] [] size = refl
  batches_from-concat [] (c ∷ cs) size = refl
  batches_from-concat (k ∷ ks) current size =
      let closed = batches_from-concat ks (k ∷ []) (2 + length (key_bytes encode k)) in
      let extended =
        batches_from-concat ks (current ++ (k ∷ [])) (size + length (key_bytes encode k)) in
      ground (arith, closed, extended, append_assoc current (k ∷ []) ks)

  payload_length-append :
      (batch : List EnvKey) (k : EnvKey)
      → payload_length encode (batch ++ (k ∷ []))
        ≡ payload_length encode batch + length (key_bytes encode k)
  payload_length-append [] k = omega (arith, length-append (key_bytes encode k) [])
  payload_length-append (b ∷ bs) k = omega (
    arith,
    payload_length-append bs k,
    length-append (key_bytes encode b) (batch_bytes encode (bs ++ (k ∷ []))),
    length-append (key_bytes encode b) (batch_bytes encode bs),
  )

  batches_from-IsShort :
      (ks current : List EnvKey) (size : ℕ)
      → size ≡ payload_length encode current
      → (current ≡ []) ⊎ IsShort encode current
      → All (IsShort encode) (batches_from encode ks current size)
  unfolding batches_from
  batches_from-IsShort [] [] size e s = tt
  batches_from-IsShort [] (c ∷ cs) size e s = ground arith
  batches_from-IsShort (k ∷ ks) [] size e s =
      batches_from-IsShort ks (k ∷ []) (size + length (key_bytes encode k))
        (omega (arith, e, payload_length-append [] k)) (inr (refl, inr (k, refl)))
  batches_from-IsShort (k ∷ ks) (c ∷ cs) size e s =
      let entry = length (key_bytes encode k) in
      elim (Bool-cases (ltb environ_sb_max (size + entry))) [
        | inl full ↦ rw full (
          ground arith,
          batches_from-IsShort ks (k ∷ []) (2 + entry) (omega (arith, payload_length-append [] k))
              (inr (refl, inr (k, refl))),
        )
        | inr room ↦ rw room (
            batches_from-IsShort ks (c ∷ (cs ++ (k ∷ []))) (size + entry)
              (omega (arith, e, payload_length-append (c ∷ cs) k))
              (inr (refl, inl (ground (arith, e, payload_length-append (c ∷ cs) k, room)))))
      ]

  -- For any encoding, the batches hold the keys of the request, all of them and in order, no batch
  -- is empty, and the payload of each is at most 240 bytes, unless it is one key alone.
  pub batch_environ_keys-IsShort :
      (request_list : List EnvKey)
      → (concat (batch_environ_keys encode request_list) ≡ request_list)
        × All (IsShort encode) (batch_environ_keys encode request_list)
  unfolding batch_environ_keys
  batch_environ_keys-IsShort request_list = (
    batches_from-concat request_list [] 2,
    batches_from-IsShort request_list [] 2 refl (inl refl),
  )
