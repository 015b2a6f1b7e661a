-- ===== src/Reader/Plain.antt =====
-- A `readuntil` that searches the whole buffer on every round.
use telnetlib.Prelude.{
  ℕ, suc, ◌-◌, true, false, List, [], ◌∷◌, none, some, if◌then◌else◌, ◌≡◌, refl, Bytes, length, ltb,
}
use telnetlib.Reader.{
  Reader, Input, Step, raised, awaits, empty_separator, limit_overrun, settle, drive,
}
use telnetlib.Reader.Reads.{find, take_until, wait_unless_eof, unless_exception}

-- A round that begins the search at the front, and has no local variable.
unfoldable pub search_round : Bytes → Unit {0} → Reader → Step (Unit {0}) × Reader
search_round sep l r = elim (find sep r.buffer) [
  | some isep ↦ take_until sep isep r
  | none ↦
      (let ahead = suc (length r.buffer) - length sep in
        if ltb r.limit ahead then (raised (limit_overrun ahead), r) else wait_unless_eof l r)
]

unfoldable pub search_until : Bytes → List (List Input) → Reader → Step (Unit {0}) × Reader
search_until [] schedule r = (raised empty_separator, r)
search_until (s ∷ ss) schedule r =
    drive (search_round (s ∷ ss)) schedule
      (settle (unless_exception r.exception (search_round (s ∷ ss) tt) r))

module _ (sep : Bytes) where
  pub search_round-over :
      (r : Reader)
      → find sep r.buffer ≡ none
      → ltb r.limit (suc (length r.buffer) - length sep) ≡ true
      → search_round sep tt r ≡ (raised (limit_overrun (suc (length r.buffer) - length sep)), r)
  unfolding search_round
  search_round-over r missed over = rw (search_round, missed, over) refl

  pub search_round-missed :
      (r : Reader)
      → find sep r.buffer ≡ none
      → ltb r.limit (suc (length r.buffer) - length sep) ≡ false
      → r.eof ≡ false
      → search_round sep tt r ≡ (awaits tt, r)
  unfolding search_round wait_unless_eof
  search_round-missed r missed within going = rw (search_round, missed, within, going) refl

  pub search_round-found :
      (r : Reader) (isep : ℕ)
      → find sep r.buffer ≡ some isep
      → search_round sep tt r ≡ take_until sep isep r
  unfolding search_round
  search_round-found r isep found = rw (search_round, found) refl
