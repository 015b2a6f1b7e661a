-- ===== src/Reader/Flow/Calls.antt =====
-- Reading never comes to a stand, over all the calls.
use telnetlib.Prelude.{
  Option, ℕ, suc, ◌-◌, false, List, [], ◌∷◌, none, ◌≡◌, inl, inr, refl, Bytes, length, Option-cases,
  drop, ltb, leb, ◌==◌, nat_eq,
}
use telnetlib.Reader.{Reader, Input, idle, Transport, input}
use telnetlib.Reader.Reads.{
  find_at, take_front, take_until, until_round, pattern_round, exactly_round, line_round, nearest,
  crlf, crnul, cr, lf, readuntil, readuntil_pattern, readexactly, read, readline,
}
use telnetlib.Reader.Flow.{
  is_stopped, IsCalm, IsFlowing, IsSafe, IsFlowing-maybe_resume, IsFlowing-input, drive-Flows,
  settle-Flows, unless_exception-IsSafe, if-IsSafe, wait_unless_eof-IsSafe,
}

module _ (L : Type 0) where
  take_front-IsSafe : (n : ℕ) (r : Reader) → IsFlowing r → IsSafe {L = L} (take_front n r)
  take_front-IsSafe n r f =
      IsFlowing-maybe_resume (record r { buffer = drop n r.buffer })
        (record { knows = f.calm.knows; waits = f.calm.waits })

  take_until-IsSafe :
      (sep : Bytes) (isep : ℕ) (r : Reader) → IsFlowing r → IsSafe {L = L} (take_until sep isep r)
  unfolding take_until
  take_until-IsSafe sep isep r f =
      if-IsSafe (ltb r.limit isep) _ _ (λ over. f) (λ within. take_front-IsSafe _ r f)

until_round-IsSafe :
    (sep : Bytes) (offset : ℕ) (r : Reader) → IsFlowing r → IsSafe (until_round sep offset r)
unfolding until_round
until_round-IsSafe sep offset r f =
    if-IsSafe (leb (length sep) (length r.buffer - offset)) _ _
      (λ many. elim (Option-cases (find_at sep offset r.buffer)) [
        | inl missed ↦ rw missed (
            if-IsSafe (ltb r.limit (suc (length r.buffer) - length sep)) _ _ (λ over. f)
              (λ within. wait_unless_eof-IsSafe _ r f))
        | inr (isep, found) ↦ rw found (take_until-IsSafe ℕ sep isep r f)
      ])
      (λ few. wait_unless_eof-IsSafe offset r f)

exactly_round-IsSafe :
    (n : ℕ) (l : Unit {0}) (r : Reader) → IsFlowing r → IsSafe (exactly_round n l r)
unfolding exactly_round
exactly_round-IsSafe n l r f =
    if-IsSafe (ltb (length r.buffer) n) _ _ (λ few. wait_unless_eof-IsSafe l r f)
      (λ enough. take_front-IsSafe (Unit {0}) n r f)

pattern_round-IsSafe :
    (search : Bytes → Option ℕ) (l : Unit {0}) (r : Reader)
    → IsFlowing r
    → IsSafe (pattern_round search l r)
unfolding pattern_round
pattern_round-IsSafe search l r f = elim (Option-cases (search r.buffer)) [
  | inl missed ↦
      rw (pattern_round, missed)
        (if-IsSafe (ltb r.limit (length r.buffer)) _ _ (λ over. f)
          (λ within. wait_unless_eof-IsSafe l r f))
  | inr (match_end, found) ↦
      rw (pattern_round, found)
        (if-IsSafe (ltb r.limit match_end) _ _ (λ over. f)
          (λ within. take_front-IsSafe (Unit {0}) match_end r f))
]

line_round-IsSafe : (line : Bytes) (r : Reader) → IsFlowing r → IsSafe (line_round line r)
unfolding line_round
line_round-IsSafe line r f =
    let cut : (rest : Bytes) → IsCalm (record r { buffer = rest }) =
      λ rest. record { knows = f.calm.knows; waits = f.calm.waits } in
    elim (Option-cases (nearest (crlf ∷ crnul ∷ cr ∷ lf ∷ []) r.buffer)) [
      | inl missed ↦
          rw (line_round, missed)
            (if-IsSafe r.eof _ _ (λ done. IsFlowing-maybe_resume _ (cut [])) (λ going. cut []))
      | inr (hit, found) ↦ rw (line_round, found) (IsFlowing-maybe_resume _ (cut _))
    ]

pub data Call : Type 0 where
  until : Bytes → Call
  pattern : (Bytes → Option ℕ) → Call
  exactly up_to : ℕ → Call
  line : Call

-- the reader when the call has ended or waits for more
abbrev pub after_call : Call → List (List Input) → Reader → Reader
after_call (until sep) schedule r = (readuntil sep schedule r).1
after_call (pattern search) schedule r = (readuntil_pattern search schedule r).1
after_call (exactly n) schedule r = (readexactly n schedule r).1
after_call (up_to n) schedule r = (read n schedule r).1
after_call line schedule r = (readline schedule r).1

-- What calls of the application and of the protocol, in any order, make of a reader.
pub data Reaches (r : Reader) : Reader → Type 0 where
  here : Reaches r r
  called :
      {s : Reader}
      → Reaches r s
      → (c : Call) (schedule : List (List Input)) → Reaches r (after_call c schedule s)
  came : {s : Reader} → Reaches r s → (i : Input) → Reaches r (input i s)

IsFlowing-after_call :
    (c : Call) (schedule : List (List Input)) (r : Reader)
    → IsFlowing r
    → IsFlowing (after_call c schedule r)
unfolding readuntil readuntil_pattern readexactly read readline
IsFlowing-after_call (until []) schedule r f = f
IsFlowing-after_call (until (s ∷ ss)) schedule r f =
    drive-Flows _ (until_round-IsSafe (s ∷ ss)) schedule _ (
      settle-Flows _
        (unless_exception-IsSafe r.exception _ r f (until_round-IsSafe (s ∷ ss) 0 r f)))
IsFlowing-after_call (pattern search) schedule r f =
    drive-Flows _ (pattern_round-IsSafe search) schedule _ (
      settle-Flows _
        (unless_exception-IsSafe r.exception _ r f (pattern_round-IsSafe search tt r f)))
IsFlowing-after_call (exactly n) schedule r f = drive-Flows _ (exactly_round-IsSafe n) schedule _ (
    settle-Flows _ (
      unless_exception-IsSafe r.exception _ r f
        (if-IsSafe (n == 0) _ _ (λ z. f) (λ z. exactly_round-IsSafe n tt r f))))
IsFlowing-after_call (up_to n) schedule r f =
    drive-Flows _ (λ l. take_front-IsSafe (Unit {0}) n) schedule _
      (settle-Flows _ (
        unless_exception-IsSafe r.exception _ r f (
          if-IsSafe (n == 0) _ _ (λ z. f)
            (λ z.
              if-IsSafe (ltb 0 (length r.buffer)) _ _ (λ h. take_front-IsSafe (Unit {0}) n r f)
                (λ h.
                  if-IsSafe r.eof _ _ (λ e. take_front-IsSafe (Unit {0}) n r f) (λ e. f.calm))))))
IsFlowing-after_call line schedule r f =
    drive-Flows _ line_round-IsSafe schedule _
      (settle-Flows _ (unless_exception-IsSafe r.exception _ r f (line_round-IsSafe [] r f)))

-- __init__ and `set_transport`
abbrev pub new_reader : ℕ → Transport → Reader
new_reader limit transport = record {
  limit = limit;
  buffer = [];
  eof = false;
  waiter = idle;
  exception = none;
  transport = transport;
  paused = false;
}

new_reader-IsFlowing :
    (limit : ℕ) (transport : Transport)
    → is_stopped transport ≡ false
    → IsFlowing (new_reader limit transport)
new_reader-IsFlowing limit transport reads = record {
  calm = record { knows = reads; waits = refl };
  full = refl;
}

-- Reading never comes to a stand: whatever reads and whatever the protocol does, in any order and
-- with any bytes, from a new reader on a transport that is not paused, the reader always knows
-- whether the transport is paused; it is not while a coroutine waits, so that no coroutine waits for
-- bytes that cannot come; and it is only where the reader is at its end or has more bytes than the
-- limit.
pub reader-IsFlowing :
    (limit : ℕ) (transport : Transport) (r : Reader)
    → is_stopped transport ≡ false
    → Reaches (new_reader limit transport) r
    → IsFlowing r
reader-IsFlowing limit transport r reads here = new_reader-IsFlowing limit transport reads
reader-IsFlowing limit transport _ reads (called past c schedule) =
    IsFlowing-after_call c schedule _ (reader-IsFlowing limit transport _ reads past)
reader-IsFlowing limit transport _ reads (came past i) =
    IsFlowing-input i _ (reader-IsFlowing limit transport _ reads past)
