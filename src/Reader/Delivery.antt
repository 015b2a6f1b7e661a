-- ===== src/Reader/Delivery.antt =====
-- What a coroutine that waits in `readuntil` gets from the bytes that come.
use telnetlib.Prelude.{
  ℕ, zero, suc, ◌+◌, ◌≤◌, ◌<◌, false, List, [], ◌∷◌, ◌++◌, Option, none, some, if◌then◌else◌, ◌≡◌,
  ◌⊎◌, inl, inr, refl, arith, Bytes, length, take, Option-cases, ap, ◌∙◌, append_assoc, append-nil,
}
use telnetlib.Reader.{
  Reader, Input, idle, pending, resolved, inputs, Step, returned, raised, awaits, wait_for_data,
  settle, resume, resume_reading, drive,
}
use telnetlib.Reader.Reads.{find, take_until, unless_exception, readuntil}
use telnetlib.Reader.Search.{find-append, find-late}
use telnetlib.Reader.Feeding.{concat, fed, inputs-Fed, inputs_wake}
use telnetlib.Reader.Plain.{search_round, search_until, search_round-found, search_round-missed}
use telnetlib.Reader.Until.{forget, readuntil-search_until}

-- Nothing is wrong with the reader, and its coroutine waits.
record IsWaiting (sep : Bytes) (r : Reader) : Type 0 where
  pub waiting : r.waiter ≡ pending
  pub going : r.eof ≡ false
  pub missed : find sep r.buffer ≡ none

take-append : (n : ℕ) (xs ys : Bytes) → n ≤ length xs → take n (xs ++ ys) ≡ take n xs
take-append zero xs ys h = refl
take-append (suc n) [] ys h = absurd (omega arith)
take-append (suc n) (x ∷ xs) ys h = ap (λ zs. x ∷ zs) (take-append n xs ys (omega arith))

-- the bytes of each list come before the coroutine runs again
abbrev pub schedule_of : List (List Bytes) → List (List Input)
schedule_of [] = []
schedule_of (parts ∷ more) = fed parts ∷ schedule_of more

abbrev pub stream : List (List Bytes) → Bytes
stream [] = []
stream (parts ∷ more) = concat parts ++ stream more

-- the reader of a coroutine that has begun to wait
abbrev waiting_now : Reader → Reader
waiting_now r =
    if r.paused
    then record r { paused = false; transport = resume_reading r.transport; waiter = pending }
    else record r { waiter = pending }

found_once : (j k : ℕ) (o : Option ℕ) → o ≡ some j → o ≡ some k → j ≡ k
found_once j k o a b = ground (arith, a, b)

module _ (sep : Bytes) (some_sep : 0 < length sep) (k : ℕ) where
  abbrev Reads : Step (Unit {0}) × Reader → Bytes → Type 0
  Reads p whole = p.0 ≡ returned (take (k + length sep) whole)

  -- A round either reads what is asked for, or waits on the same bytes.
  abbrev Goes : Reader → Bytes → Step (Unit {0}) × Reader → Type 0
  Goes r rest p =
      Reads p (r.buffer ++ rest)
      ⊎ ((r' : Reader) × (p ≡ (awaits tt, r'))
          × IsWaiting sep r'
          × (r'.buffer ≡ r.buffer)
          × (r'.limit ≡ r.limit))

  take_until-Reads :
      (r : Reader) (rest : Bytes)
      → k ≤ r.limit
      → k + length sep ≤ length r.buffer
      → Reads (settle (take_until sep k r)) (r.buffer ++ rest)
  unfolding take_until
  take_until-Reads r rest within long =
      rw (take-append (k + length sep) r.buffer rest long) (ground (arith, within))

  wait_for_data-Goes :
      (r : Reader) (rest : Bytes)
      → r.waiter ≡ idle
      → r.eof ≡ false
      → find sep r.buffer ≡ none
      → Goes r rest (wait_for_data tt r)
  unfolding wait_for_data
  wait_for_data-Goes r rest i going missed = inr (
    waiting_now r,
    ground (arith, i),
    record {
      waiting = ground arith;
      going = ground (arith, going);
      missed = ground (arith, missed);
    },
    ground arith,
    ground arith,
  )

  search-Goes :
      (r : Reader) (rest : Bytes)
      → r.waiter ≡ idle
      → r.eof ≡ false
      → k ≤ r.limit
      → find sep (r.buffer ++ rest) ≡ some k
      → Goes r rest (settle (search_round sep tt r))
  search-Goes r rest i going within found = elim (Option-cases (find sep r.buffer)) [
    | inl missed ↦
        let late = find-late sep r.buffer rest k some_sep missed found in
        rw (search_round-missed sep r missed (ground (arith, late, within)) going)
          (wait_for_data-Goes r rest i going missed)
    | inr (j, here) ↦
        let (same, long) = find-append sep r.buffer rest j here in
        let e = found_once j k _ same found in
        rw (search_round-found sep r k (rw e at here))
          (inl (take_until-Reads r rest within (omega (arith, long, e))))
  ]

  abbrev answer_of : Bytes → Step (Unit {0})
  answer_of whole = returned (take (k + length sep) whole)

  drive_done :
      (batches : List (List Input)) (p : Step (Unit {0}) × Reader) (bytes : Bytes)
      → p.0 ≡ returned bytes
      → (drive (search_round sep) batches p).0 ≡ returned bytes
  unfolding drive
  drive_done [] p bytes e = e
  drive_done (batch ∷ more) (s, r) bytes e = rw e refl

  -- what the coroutine does when the inputs have come
  abbrev goes_on : List (List Bytes) → Step (Unit {0}) × Reader → Step (Unit {0})
  goes_on more p = (drive (search_round sep) (schedule_of more) p).0

  resume_asleep :
      (r : Reader) → r.waiter ≡ pending → resume (search_round sep) tt r r.waiter ≡ (awaits tt, r)
  unfolding resume
  resume_asleep r h = rw h refl

  resume_woken :
      (r : Reader)
      → r.waiter ≡ resolved
      → resume (search_round sep) tt r r.waiter
        ≡ settle (search_round sep tt (record r { waiter = idle }))
  unfolding resume
  resume_woken r h = rw h refl

  drive-Reads :
      (batches : List (List Bytes)) (r : Reader)
      → IsWaiting sep r
      → k ≤ r.limit
      → find sep (r.buffer ++ stream batches) ≡ some k
      → Reads
          (drive (search_round sep) (schedule_of batches) (awaits tt, r))
          (r.buffer ++ stream batches)
  unfolding drive
  drive-Reads [] r w within found = ground (arith, append-nil r.buffer, w.missed, found)
  drive-Reads (parts ∷ more) r w within found =
      let r1 = inputs (fed parts) r in
      let f = inputs-Fed parts r in
      let whole =
        ap (λ b. b ++ stream more) f.grows.buffer
        ∙ append_assoc r.buffer (concat parts) (stream more) in
      let found' = ap (find sep) whole ∙ found in
      let answer = ap (λ b. answer_of b) whole in
      elim (inputs_wake parts r w.waiting) [
        | inl (nothing, asleep) ↦
            let same = f.grows.buffer ∙ ap (λ b. r.buffer ++ b) nothing ∙ append-nil r.buffer in
            ap (goes_on more) (resume_asleep r1 asleep)
            ∙ drive-Reads more r1
                (record {
                  waiting = asleep;
                  going = f.feeds.eof ∙ w.going;
                  missed = ap (find sep) same ∙ w.missed;
                })
                (omega (arith, within, f.grows.limit)) found'
            ∙ answer
        | inr woken ↦
            elim (search-Goes (record r1 { waiter = idle }) (stream more) refl
              (f.feeds.eof ∙ w.going) (omega (arith, within, f.grows.limit)) found') [
                | inl reads ↦
                    ap (goes_on more) (resume_woken r1 woken)
                    ∙ drive_done (schedule_of more) _ _ reads
                    ∙ answer
                | inr (r2, e, w', same, limit) ↦
                    ap (goes_on more) (resume_woken r1 woken ∙ e)
                    ∙ drive-Reads more r2 w' (omega (arith, within, f.grows.limit, limit))
                        (ap (λ b. find sep (b ++ stream more)) same ∙ found')
                    ∙ ap (λ b. answer_of (b ++ stream more)) same
                    ∙ answer
              ]
      ]

  search_until_delivers :
      (batches : List (List Bytes)) (r : Reader)
      → r.exception ≡ none
      → r.eof ≡ false
      → r.waiter ≡ idle
      → k ≤ r.limit
      → find sep (r.buffer ++ stream batches) ≡ some k
      → Reads
          (drive
            (search_round sep)
            (schedule_of batches)
            (settle (unless_exception r.exception (search_round sep tt) r)))
          (r.buffer ++ stream batches)
  search_until_delivers batches r fine going i within found =
      let start = ap (λ x. settle (unless_exception x (search_round sep tt) r)) fine in
      ap (goes_on batches) start ∙ elim (search-Goes r (stream batches) i going within found) [
        | inl reads ↦ drive_done (schedule_of batches) _ _ reads
        | inr (r1, e, w, same, limit) ↦
            ap (goes_on batches) e
            ∙ drive-Reads batches r1 w (omega (arith, within, limit))
                (ap (λ b. find sep (b ++ stream batches)) same ∙ found)
            ∙ ap (λ b. answer_of (b ++ stream batches)) same
      ]

forget_returned :
    (p : Step ℕ × Reader) (bytes : Bytes) → (forget p).0 ≡ returned bytes → p.0 ≡ returned bytes
forget_returned (returned b, r) bytes e = ground (arith, e)
forget_returned (raised x, r) bytes e = ground (arith, e)
forget_returned (awaits l, r) bytes e = ground (arith, e)

-- `readuntil` returns as soon as the bytes for it have come, however they are divided: where the
-- separator, which is not empty, first stands at `k` in what is in the buffer and what is fed, within the limit, the call
-- does not wait for ever and raises nothing; it returns the bytes up to the separator and with it,
-- and no byte behind it. No exception is set, the reader is not at its end, and no other coroutine
-- waits; the transport may be paused.
pub readuntil_delivers :
    (sep : Bytes) (k : ℕ) (batches : List (List Bytes)) (r : Reader)
    → 0 < length sep
    → r.exception ≡ none
    → r.eof ≡ false
    → r.waiter ≡ idle
    → k ≤ r.limit
    → find sep (r.buffer ++ stream batches) ≡ some k
    → (readuntil sep (schedule_of batches) r).0
      ≡ returned (take (k + length sep) (r.buffer ++ stream batches))
unfolding search_until drive
readuntil_delivers [] k batches r some_sep fine going i within found = absurd (omega arith)
readuntil_delivers (s ∷ ss) k batches r some_sep fine going i within found = forget_returned _ _ (
    ap (λ p. p.0) (readuntil-search_until (s ∷ ss) (schedule_of batches) r)
    ∙ search_until_delivers (s ∷ ss) some_sep k batches r fine going i within found)
