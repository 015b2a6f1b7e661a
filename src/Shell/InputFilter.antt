-- ===== src/Shell/InputFilter.antt =====
-- client_shell.py: class `InputFilter`, which replaces the sequences that a terminal sends.
pub mod Sequences
pub mod Pieces
pub mod Tables
use telnetlib.Prelude.{
  ℕ, zero, suc, Bool, true, false, ◌&&◌, ◌||◌, List, [], ◌∷◌, ◌++◌, Option, none, some,
  if◌then◌else◌, ◌==◌, nat_eq, bytes_eq, Bytes, length, drop, ltb,
}
use telnetlib.Dict
use telnetlib.Dict.{Dict}
use telnetlib.Reader.Reads.{starts_with}

-- The tables, with the sequences in the order of `_seq_sorted`, and what is kept for the next call.
pub record InputFilter : Type 0 where
  pub map_singlebyte : Dict ℕ ℕ
  pub seq_sorted : Dict Bytes Bytes
  pub buf : Bytes

-- a place behind those that are as long
unfoldable pub insert_sequence : Bytes → Bytes → Dict Bytes Bytes → Dict Bytes Bytes
insert_sequence seq repl [] = (seq, repl) ∷ []
insert_sequence seq repl ((other, text) ∷ seqs) =
    if ltb (length other) (length seq)
    then (seq, repl) ∷ (other, text) ∷ seqs
    else (other, text) ∷ insert_sequence seq repl seqs

-- sorted(..., key=lambda kv: len(kv[0]), reverse=True), which keeps the order of equals, onto a
-- sorted list
unfoldable pub sort_sequences : Dict Bytes Bytes → Dict Bytes Bytes → Dict Bytes Bytes
sort_sequences sorted [] = sorted
sort_sequences sorted ((seq, repl) ∷ seqs) = sort_sequences (insert_sequence seq repl sorted) seqs

-- __init__
abbrev pub new_filter : Dict Bytes Bytes → Dict ℕ ℕ → InputFilter
new_filter seq_xlat byte_xlat = record {
  map_singlebyte = byte_xlat;
  seq_sorted = sort_sequences [] seq_xlat;
  buf = [];
}

-- `self._buf in self._mbs_prefixes`, for a buffer that is not empty
unfoldable pub is_partial : Dict Bytes Bytes → Bytes → Bool
is_partial [] buf = false
is_partial ((seq, repl) ∷ seqs) buf =
    (starts_with buf seq && ltb (length buf) (length seq)) || is_partial seqs buf

-- The `for` loop: what replaces the first sequence that stands at the front, and what is behind it.
unfoldable pub match_sequence : Dict Bytes Bytes → Bytes → Option (Bytes × Bytes)
match_sequence [] buf = none
match_sequence ((seq, repl) ∷ seqs) buf =
    let later = match_sequence seqs buf in
    if starts_with seq buf then some (repl, drop (length seq) buf) else later

-- self._map_singlebyte.get(b, b)
unfoldable pub single_byte : Dict ℕ ℕ → ℕ → ℕ
single_byte table b = elim (Dict.get table b) [ none ↦ b | some c ↦ c ]

-- flush, with the bytes it returns
unfoldable pub flush_bytes : Dict ℕ ℕ → Bytes → Bytes
flush_bytes table [] = []
flush_bytes table (b ∷ bs) = single_byte table b ∷ flush_bytes table bs

unfoldable pub flush : InputFilter → Bytes × InputFilter
flush s = (flush_bytes s.map_singlebyte s.buf, record s { buf = [] })

abbrev pub prepend : Bytes → Option (Bytes × Bytes) → Option (Bytes × Bytes)
prepend bytes none = none
prepend bytes (some (result, left)) = some (bytes ++ result, left)

-- The loop of `feed`: its result and the buffer that is left; `none` where the fuel runs out.
unfoldable pub feed_loop : Dict ℕ ℕ → Dict Bytes Bytes → ℕ → Bytes → Option (Bytes × Bytes)
feed_loop table seqs zero buf = none
feed_loop table seqs (suc f) [] = some ([], [])
feed_loop table seqs (suc f) (b ∷ bs) = elim (match_sequence seqs (b ∷ bs)) [
  | some (repl, rest) ↦ prepend repl (feed_loop table seqs f rest)
  | none ↦ elim (is_partial seqs (b ∷ bs)) [
    | true ↦ some ([], b ∷ bs)
    | false ↦ prepend (single_byte table b ∷ []) (feed_loop table seqs f bs)
  ]
]

-- feed, with the fuel given
unfoldable pub feed : ℕ → Bytes → InputFilter → Option (Bytes × InputFilter)
feed fuel bytes s = elim (feed_loop s.map_singlebyte s.seq_sorted fuel (s.buf ++ bytes)) [
  | none ↦ none
  | some (result, left) ↦ some (result, record s { buf = left })
]
