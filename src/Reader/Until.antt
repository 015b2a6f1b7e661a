-- ===== src/Reader/Until.antt =====
-- `readuntil` against a search of the whole buffer on every round.
use telnetlib.Prelude.{
  ℕ, suc, ◌+◌, ◌-◌, ◌≤◌, ◌<◌, false, List, [], ◌∷◌, Option, none, some, ◌≡◌, refl, arith, Bytes,
  length, ltb, leb, Option-cases, Bool-cases, inl, inr, ap, ◌∙◌, length-append,
}
use telnetlib.Reader.{
  Reader, Input, Waiter, idle, pending, resolved, failed, input, inputs, Step, returned, raised,
  awaits, wait_for_data, settle, resume, drive,
}
use telnetlib.Reader.Reads.{
  find, take_until, wait_unless_eof, until_round, unless_exception, readuntil,
}
use telnetlib.Reader.Plain.{search_round, search_until, search_round-over, search_round-found}
use telnetlib.Reader.Feeding.{input-Grows}
use telnetlib.Reader.Search.{Clear, Clear-append, find-Clear, find-none, find-short}

-- without the local variable
abbrev pub forget : Step ℕ × Reader → Step (Unit {0}) × Reader
forget (returned bytes, r) = (returned bytes, r)
forget (raised x, r) = (raised x, r)
forget (awaits l, r) = (awaits tt, r)

module _ (sep : Bytes) (some_sep : 0 < length sep) where
  -- The separator does not stand before `offset`, which is within the bounds.
  abbrev IsBehind : ℕ → Reader → Type 0
  IsBehind offset r =
      Clear sep offset r.buffer
      × (0 < offset → offset + length sep ≤ suc (length r.buffer))
      × (offset ≤ r.limit)

  abbrev IsGood : Step ℕ × Reader → Type 0
  IsGood (returned bytes, r) = Unit
  IsGood (raised x, r) = Unit
  IsGood (awaits offset, r) = IsBehind offset r

  -- The two do the same, and the first may go on.
  abbrev Agrees : Step ℕ × Reader → Step (Unit {0}) × Reader → Type 0
  Agrees p q = (forget p ≡ q) × IsGood p

  take_until-Agrees :
      (isep : ℕ) (r : Reader) → Agrees (take_until sep isep r) (take_until sep isep r)
  unfolding take_until
  take_until-Agrees isep r = elim (Bool-cases (ltb r.limit isep)) [
    | inl e ↦ rw (take_until, e) (refl, tt)
    | inr e ↦ rw (take_until, e) (refl, tt)
  ]

  wait-Agrees :
      (offset : ℕ) (r : Reader)
      → IsBehind offset r
      → Agrees (wait_unless_eof offset r) (wait_unless_eof tt r)
  unfolding wait_unless_eof
  wait-Agrees offset r h = elim (Bool-cases r.eof) [
    | inl e ↦ rw (wait_unless_eof, e) (refl, tt)
    | inr e ↦ rw (wait_unless_eof, e) (refl, h)
  ]

  -- nothing to find
  missed-Agrees :
      (offset : ℕ) (r : Reader)
      → IsBehind offset r
      → find sep r.buffer ≡ none
      → ltb r.limit (suc (length r.buffer) - length sep) ≡ false
      → Agrees (wait_unless_eof offset r) (search_round sep tt r)
  unfolding search_round wait_unless_eof
  missed-Agrees offset r h missed within =
      rw (search_round, missed, within) (wait-Agrees offset r h)

  round-Agrees :
      (offset : ℕ) (r : Reader)
      → IsBehind offset r
      → Agrees (until_round sep offset r) (search_round sep tt r)
  unfolding until_round
  round-Agrees offset r (clear, inside, bound) =
      elim (Bool-cases (leb (length sep) (length r.buffer - offset))) [
        | inr few ↦
            let missed =
              find-short sep offset r.buffer some_sep (ground (arith, few, inside)) clear in
            rw (until_round, few)
              (missed-Agrees offset r (clear, inside, bound) missed
                (ground (arith, bound, inside, few, some_sep)))
        | inl many ↦ elim (Option-cases (find sep r.buffer)) [
          | inr (isep, found) ↦
              rw
                (
                  until_round,
                  many,
                  find-Clear sep offset r.buffer clear,
                  found,
                  search_round-found sep r isep found,
                )
                (take_until-Agrees isep r)
          | inl missed ↦
              let ahead = suc (length r.buffer) - length sep in
              elim (Bool-cases (ltb r.limit ahead)) [
                | inl over ↦
                    rw
                      (
                        until_round,
                        many,
                        find-Clear sep offset r.buffer clear,
                        missed,
                        over,
                        search_round-over sep r missed over,
                      )
                      (refl, tt)
                | inr within ↦
                    rw (until_round, many, find-Clear sep offset r.buffer clear, missed, within)
                      (missed-Agrees ahead r
                        (
                          find-none sep r.buffer ahead missed,
                          λ p. ground (arith, many),
                          ground (arith, within),
                        )
                        missed within)
              ]
        ]
      ]

  -- nothing changes but `paused`, the transport and the waiter
  wait_for_data-IsGood :
      (offset : ℕ) (r : Reader) → IsBehind offset r → IsGood (wait_for_data offset r)
  unfolding wait_for_data
  wait_for_data-IsGood offset r h = ground arith

  forget-wait_for_data :
      (offset : ℕ) (r : Reader) → forget (wait_for_data offset r) ≡ wait_for_data tt r
  unfolding wait_for_data
  forget-wait_for_data offset r = ground arith

  settle-Agrees : (p : Step ℕ × Reader) → IsGood p → Agrees (settle p) (settle (forget p))
  settle-Agrees (returned bytes, r) good = (refl, tt)
  settle-Agrees (raised x, r) good = (refl, tt)
  settle-Agrees (awaits offset, r) good =
      (forget-wait_for_data offset r, wait_for_data-IsGood offset r good)

  -- An input only adds to the buffer.
  input-IsBehind :
      (i : Input) (offset : ℕ) (r : Reader) → IsBehind offset r → IsBehind offset (input i r)
  input-IsBehind i offset r (clear, inside, bound) =
      let (more, grows) = input-Grows i r in
      rw (grows.buffer, grows.limit)
        (
          Clear-append sep offset r.buffer more some_sep inside clear,
          λ p. omega (arith, length-append r.buffer more, inside p),
          bound,
        )

  inputs-IsBehind :
      (is : List Input) (offset : ℕ) (r : Reader)
      → IsBehind offset r
      → IsBehind offset (inputs is r)
  inputs-IsBehind [] offset r h = h
  inputs-IsBehind (i ∷ is) offset r h =
      inputs-IsBehind is offset (input i r) (input-IsBehind i offset r h)

  settle_both :
      (p : Step ℕ × Reader) (q : Step (Unit {0}) × Reader)
      → Agrees p q
      → Agrees (settle p) (settle q)
  settle_both p q (same, good) =
      let (settled, still) = settle-Agrees p good in (settled ∙ ap settle same, still)

  resume-Agrees :
      (w : Waiter) (offset : ℕ) (r : Reader)
      → IsBehind offset r
      → Agrees (resume (until_round sep) offset r w) (resume (search_round sep) tt r w)
  unfolding resume
  resume-Agrees idle offset r h = (refl, h)
  resume-Agrees pending offset r h = (refl, h)
  resume-Agrees resolved offset r h =
      settle_both _ _ (round-Agrees offset (record r { waiter = idle }) h)
  resume-Agrees (failed x) offset r h = (refl, tt)

  start-Agrees :
      (x : Option ℕ) (r : Reader)
      → Agrees
          (unless_exception x (until_round sep 0) r)
          (unless_exception x (search_round sep tt) r)
  start-Agrees none r = round-Agrees 0 r (tt, λ p. absurd (omega (arith, p)), omega arith)
  start-Agrees (some x) r = (refl, tt)

  drive-Agrees :
      (schedule : List (List Input)) (p : Step ℕ × Reader)
      → IsGood p
      → forget (drive (until_round sep) schedule p) ≡ drive (search_round sep) schedule (forget p)
  unfolding drive
  drive-Agrees [] (returned bytes, r) good = refl
  drive-Agrees [] (raised x, r) good = refl
  drive-Agrees [] (awaits offset, r) good = refl
  drive-Agrees (batch ∷ more) (returned bytes, r) good = refl
  drive-Agrees (batch ∷ more) (raised x, r) good = refl
  drive-Agrees (batch ∷ more) (awaits offset, r) good =
      let (woken, still) =
        resume-Agrees (inputs batch r).waiter offset (inputs batch r)
          (inputs-IsBehind batch offset r good) in
      drive-Agrees more _ still ∙ ap (drive (search_round sep) more) woken

-- `readuntil` does what a search of the whole buffer from its front on every round does, whatever
-- the protocol does while it waits and whatever the reader was: the same bytes are returned, or the
-- same exception is raised, or both still wait, and the readers are the same, so that to begin the
-- search at `offset` never passes over a separator, also where it comes in pieces.
pub readuntil-search_until :
    (sep : Bytes) (schedule : List (List Input)) (r : Reader)
    → forget (readuntil sep schedule r) ≡ search_until sep schedule r
unfolding readuntil search_until
readuntil-search_until [] schedule r = refl
readuntil-search_until (s ∷ ss) schedule r =
    let (same, good) =
      settle_both (s ∷ ss) (omega arith) _ _ (start-Agrees (s ∷ ss) (omega arith) r.exception r) in
    drive-Agrees (s ∷ ss) (omega arith) schedule _ good
    ∙ ap (drive (search_round (s ∷ ss)) schedule) same
