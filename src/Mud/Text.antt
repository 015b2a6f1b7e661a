-- ===== src/Mud/Text.antt =====
-- mud.py: `_decode_best_effort`, and the readers of bytes up to a delimiter.
use telnetlib.Prelude.{
  true, false, [], ◌∷◌, ◌++◌, Option, none, some, Bytes, elem, All, ◌≡◌, refl, if◌then◌else◌, arith,
}

-- _decode_best_effort: latin-1 gives each byte as its code point
unfoldable pub decode_best_effort : (Bytes → Option Bytes) → Bytes → Bytes
decode_best_effort decode buf = elim (decode buf) [ some text ↦ text | none ↦ buf ]

-- What a loop `while idx < len(buf) and buf[idx] not in stops` passes over, and what is left.
unfoldable pub read_until : Bytes → Bytes → Bytes × Bytes
read_until stops [] = ([], [])
read_until stops (c ∷ cs) =
    let (before, after) = read_until stops cs in
    if elem c stops then ([], c ∷ cs) else (c ∷ before, after)

-- Nothing is left, or a delimiter is next.
abbrev pub Stops : Bytes → Bytes → Type 0
Stops stops [] = Unit
Stops stops (c ∷ cs) = elem c stops ≡ true

pub read_until-append :
    (stops text rest : Bytes)
    → All (λ c. elem c stops ≡ false) text
    → Stops stops rest
    → read_until stops (text ++ rest) ≡ (text, rest)
unfolding read_until
read_until-append stops [] [] a s = refl
read_until-append stops [] (c ∷ cs) a s = rw s
read_until-append stops (c ∷ cs) rest (free, a) s = rw (free, read_until-append stops cs rest a s)

pub decode_best_effort-some :
    (decode : Bytes → Option Bytes) (buf text : Bytes)
    → decode buf ≡ some text
    → decode_best_effort decode buf ≡ text
unfolding decode_best_effort
decode_best_effort-some decode buf text e = ground (arith, e)
