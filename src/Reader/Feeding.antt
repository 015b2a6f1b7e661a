-- ===== src/Reader/Feeding.antt =====
-- What the protocol's calls leave of a reader.
use telnetlib.Prelude.{
  ℕ, ◌⊎◌, inl, inr, [], ◌∷◌, ◌++◌, List, ◌≡◌, refl, arith, Bytes, append-nil, append_assoc, sym,
  ◌∙◌, ap,
}
use telnetlib.Reader.{
  Reader, Input, pending, resolved, data_fed, eof_fed, exception_set, input, inputs, feed_data,
  feed_eof, set_exception, wakeup_waiter, pause_when_full,
}

-- The second reader has more in its buffer, and the same limit.
pub record Grows (more : Bytes) (r r' : Reader) : Type 0 where
  pub buffer : r'.buffer ≡ r.buffer ++ more
  pub limit : r'.limit ≡ r.limit

pub feed_data-Grows : (bytes : Bytes) (r : Reader) → Grows bytes r (feed_data bytes r)
unfolding feed_data pause_when_full wakeup_waiter
feed_data-Grows [] r = record { buffer = sym (append-nil r.buffer); limit = refl }
feed_data-Grows (c ∷ cs) r = record { buffer = ground arith; limit = ground arith }

-- Bytes wake the coroutine that waits, and leave the rest.
pub record Feeds (r r' : Reader) : Type 0 where
  pub eof : r'.eof ≡ r.eof
  pub exception : r'.exception ≡ r.exception

pub feed_data-Feeds : (bytes : Bytes) (r : Reader) → Feeds r (feed_data bytes r)
unfolding feed_data pause_when_full wakeup_waiter
feed_data-Feeds [] r = record { eof = refl; exception = refl }
feed_data-Feeds (c ∷ cs) r = record { eof = ground arith; exception = ground arith }

pub input-Grows : (i : Input) (r : Reader) → (more : Bytes) × Grows more r (input i r)
unfolding feed_eof set_exception wakeup_waiter
input-Grows (data_fed bytes) r = (bytes, feed_data-Grows bytes r)
input-Grows eof_fed r =
    ([], record { buffer = ground (arith, append-nil r.buffer); limit = ground arith })
input-Grows (exception_set x) r =
    ([], record { buffer = ground (arith, append-nil r.buffer); limit = ground arith })

abbrev pub concat : List Bytes → Bytes
concat [] = []
concat (part ∷ parts) = part ++ concat parts

abbrev pub fed : List Bytes → List Input
fed [] = []
fed (part ∷ parts) = data_fed part ∷ fed parts

feed_data-resolved :
    (bytes : Bytes) (r : Reader) → r.waiter ≡ resolved → (feed_data bytes r).waiter ≡ resolved
unfolding feed_data pause_when_full wakeup_waiter
feed_data-resolved [] r h = h
feed_data-resolved (c ∷ cs) r h = ground (arith, h)

feed_data-pending :
    (c : ℕ) (cs : Bytes) (r : Reader)
    → r.waiter ≡ pending
    → (feed_data (c ∷ cs) r).waiter ≡ resolved
unfolding feed_data pause_when_full wakeup_waiter
feed_data-pending c cs r h = ground (arith, h)

-- A coroutine that waits is woken where there is a byte, and its reader has the bytes.
pub record Fed (bytes : Bytes) (r r' : Reader) : Type 0 where
  pub grows : Grows bytes r r'
  pub feeds : Feeds r r'

inputs-resolved :
    (parts : List Bytes) (r : Reader)
    → r.waiter ≡ resolved
    → (inputs (fed parts) r).waiter ≡ resolved
inputs-resolved [] r h = h
inputs-resolved (part ∷ parts) r h =
    inputs-resolved parts (feed_data part r) (feed_data-resolved part r h)

pub inputs-Fed : (parts : List Bytes) (r : Reader) → Fed (concat parts) r (inputs (fed parts) r)
inputs-Fed [] r = record {
  grows = record { buffer = sym (append-nil r.buffer); limit = refl };
  feeds = record { eof = refl; exception = refl };
}
inputs-Fed (part ∷ parts) r =
    let first = feed_data-Grows part r in
    let calm = feed_data-Feeds part r in
    let rest = inputs-Fed parts (feed_data part r) in
    record {
      grows = record {
        buffer =
            rest.grows.buffer
            ∙ ap (λ b. b ++ concat parts) first.buffer
            ∙ append_assoc r.buffer part (concat parts);
        limit = rest.grows.limit ∙ first.limit;
      };
      feeds = record {
        eof = rest.feeds.eof ∙ calm.eof;
        exception = rest.feeds.exception ∙ calm.exception;
      };
    }

pub inputs_wake :
    (parts : List Bytes) (r : Reader)
    → r.waiter ≡ pending
    → ((concat parts ≡ []) × ((inputs (fed parts) r).waiter ≡ pending))
      ⊎ ((inputs (fed parts) r).waiter ≡ resolved)
unfolding feed_data
inputs_wake [] r h = inl (refl, h)
inputs_wake ([] ∷ parts) r h = inputs_wake parts r h
inputs_wake ((c ∷ cs) ∷ parts) r h =
    inr (inputs-resolved parts (feed_data (c ∷ cs) r) (feed_data-pending c cs r h))
