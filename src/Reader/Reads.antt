-- ===== src/Reader/Reads.antt =====
-- stream_reader.py: `readuntil`, `readuntil_pattern`, `read`, `readexactly` and `readline` of `TelnetReader`, each as its
-- parts between two waits.
use telnetlib.Prelude.{
  ℕ, suc, ◌+◌, ◌-◌, Bool, true, false, ◌&&◌, List, [], ◌∷◌, ◌++◌, Option, none, some, if◌then◌else◌,
  ◌==◌, nat_eq, Bytes, length, take, drop, ltb, leb,
}
use telnetlib.Reader.{
  Reader, Input, Step, returned, raised, awaits, empty_separator, limit_overrun, incomplete_read,
  stored, maybe_resume_transport, settle, drive,
}

-- whether `sep` stands at the front
unfoldable pub starts_with : Bytes → Bytes → Bool
starts_with [] buf = true
starts_with (s ∷ ss) [] = false
starts_with (s ∷ ss) (c ∷ cs) = s == c && starts_with ss cs

-- a position behind `start`
abbrev pub behind : ℕ → Option ℕ → Option ℕ
behind start none = none
behind start (some k) = some (start + k)

-- buf.find(sep), with None for -1, for a `sep` that is not empty
unfoldable pub find : Bytes → Bytes → Option ℕ
find sep [] = none
find sep (c ∷ cs) =
    let later = behind 1 (find sep cs) in if starts_with sep (c ∷ cs) then some 0 else later

-- buf.find(sep, start)
unfoldable pub find_at : Bytes → ℕ → Bytes → Option ℕ
find_at sep start buf = behind start (find sep (drop start buf))

-- self._buffer[:n] with `del self._buffer[:n]`
abbrev pub take_front : {L : Type 0} → ℕ → Reader → Step L × Reader
take_front n r =
    (returned (take n r.buffer), maybe_resume_transport (record r { buffer = drop n r.buffer }))

-- The end of `readuntil`, with `isep`.
unfoldable pub take_until : {L : Type 0} → Bytes → ℕ → Reader → Step L × Reader
take_until sep isep r =
    if ltb r.limit isep then (raised (limit_overrun isep), r) else take_front (isep + length sep) r

-- `if self._eof` of the loops, and the call of `_wait_for_data`
unfoldable pub wait_unless_eof : {L : Type 0} → L → Reader → Step L × Reader
wait_unless_eof l r =
    if r.eof then (raised (incomplete_read r.buffer), record r { buffer = [] }) else (awaits l, r)

-- A round of the loop of `readuntil`; `offset` is its local variable.
unfoldable pub until_round : Bytes → ℕ → Reader → Step ℕ × Reader
until_round sep offset r =
    if leb (length sep) (length r.buffer - offset)
    then elim (find_at sep offset r.buffer) [
      | some isep ↦ take_until sep isep r
      | none ↦
          (let ahead = suc (length r.buffer) - length sep in
            if ltb r.limit ahead
            then (raised (limit_overrun ahead), r)
            else wait_unless_eof ahead r)
    ]
    else wait_unless_eof offset r

-- `if self._exception is not None: raise self._exception`
abbrev pub unless_exception :
    {L : Type 0} → Option ℕ → (Reader → Step L × Reader) → Reader → Step L × Reader
unless_exception none body r = body r
unless_exception (some x) body r = (raised (stored x), r)

-- readuntil, on the inputs that come while it waits
unfoldable pub readuntil : Bytes → List (List Input) → Reader → Step ℕ × Reader
readuntil [] schedule r = (raised empty_separator, r)
readuntil (s ∷ ss) schedule r =
    drive (until_round (s ∷ ss)) schedule
      (settle (unless_exception r.exception (until_round (s ∷ ss) 0) r))

-- A round of the loop of `readuntil_pattern`; `search` gives `match.end()` of `pattern.search`.
unfoldable pub pattern_round : (Bytes → Option ℕ) → Unit {0} → Reader → Step (Unit {0}) × Reader
pattern_round search l r = elim (search r.buffer) [
  | some match_end ↦
      if ltb r.limit match_end
      then (raised (limit_overrun match_end), r)
      else take_front match_end r
  | none ↦
      if ltb r.limit (length r.buffer)
      then (raised (limit_overrun (length r.buffer)), r)
      else wait_unless_eof l r
]

-- readuntil_pattern, for a pattern of bytes
unfoldable pub readuntil_pattern :
    (Bytes → Option ℕ) → List (List Input) → Reader → Step (Unit {0}) × Reader
readuntil_pattern search schedule r =
    drive (pattern_round search) schedule
      (settle (unless_exception r.exception (pattern_round search tt) r))

-- A round of the loop of `readexactly`.
unfoldable pub exactly_round : ℕ → Unit {0} → Reader → Step (Unit {0}) × Reader
exactly_round n l r = if ltb (length r.buffer) n then wait_unless_eof l r else take_front n r

-- readexactly
unfoldable pub readexactly : ℕ → List (List Input) → Reader → Step (Unit {0}) × Reader
readexactly n schedule r = drive (exactly_round n) schedule (
    settle (
      unless_exception r.exception (λ r. if n == 0 then (returned [], r) else exactly_round n tt r)
        r))

-- read for an `n` that is not negative
unfoldable pub read : ℕ → List (List Input) → Reader → Step (Unit {0}) × Reader
read n schedule r =
    drive (λ l. take_front n) schedule
      (settle (
        unless_exception r.exception
          (λ r.
            if n == 0
            then (returned [], r)
            else if ltb 0 (length r.buffer)
            then take_front n r
            else if r.eof
            then take_front n r
            else (awaits tt, r))
          r))

-- The line ends that `readline` looks for.
pub data Kind : Type 0 where
  crlf crnul cr lf : Kind

abbrev pub bytes_of : Kind → Bytes
bytes_of crlf = 13 ∷ 10 ∷ []
bytes_of crnul = 13 ∷ 0 ∷ []
bytes_of cr = 13 ∷ []
bytes_of lf = 10 ∷ []

-- min(matches), for the kinds in the order of their length
unfoldable pub nearest : List Kind → Bytes → Option (ℕ × Kind)
nearest [] buf = none
nearest (kind ∷ kinds) buf =
    let others = nearest kinds buf in
    elim (find (bytes_of kind) buf) [
      | none ↦ others
      | some pos ↦ elim others [
        | none ↦ some (pos, kind)
        | some other ↦ if ltb other.0 pos then some other else some (pos, kind)
      ]
    ]

-- `begin` and `end`
abbrev pub line_cut : ℕ → Kind → ℕ × ℕ
line_cut pos crlf = (pos + 2, pos + 2)
line_cut pos crnul = (pos + 1, pos + 2)
line_cut pos cr = (pos + 1, pos + 1)
line_cut pos lf = (pos + 1, pos + 1)

-- A round of the outer loop of `readline`, with the `line` so far.
unfoldable pub line_round : Bytes → Reader → Step Bytes × Reader
line_round line r = elim (nearest (crlf ∷ crnul ∷ cr ∷ lf ∷ []) r.buffer) [
  | none ↦
      (let all = line ++ r.buffer in
        let emptied = record r { buffer = [] } in
        if r.eof then (returned all, maybe_resume_transport emptied) else (awaits all, emptied))
  | some hit ↦
      (let (begin, end) = line_cut hit.0 hit.1 in
        (
          returned (line ++ take begin r.buffer),
          maybe_resume_transport (record r { buffer = drop end r.buffer }),
        ))
]

-- readline
unfoldable pub readline : List (List Input) → Reader → Step Bytes × Reader
readline schedule r =
    drive line_round schedule (settle (unless_exception r.exception (line_round []) r))
