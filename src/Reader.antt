-- ===== src/Reader.antt =====
-- stream_reader.py: class `TelnetReader`, what the protocol calls and how its coroutines wait.
-- One coroutine reads at a time, and its future is not cancelled.
pub mod Reads
pub mod Search
pub mod Feeding
pub mod Plain
pub mod Until
pub mod Delivery
pub mod Flow
use telnetlib.Prelude.{
  ℕ, ◌+◌, ◌*◌, Bool, true, false, not, ◌&&◌, List, [], ◌∷◌, ◌++◌, Option, none, some, if◌then◌else◌,
  Bytes, length, ltb, leb,
}

-- The future of the coroutine. `_waiter` is set where it is `pending`, and None where not.
pub data Waiter : Type 0 where
  idle pending resolved : Waiter
  failed : ℕ → Waiter

-- The transport: none, one whose pause_reading raises NotImplementedError, or one that can be
-- paused, with whether it is reading.
pub data Transport : Type 0 where
  absent unpausable : Transport
  pausable : Bool → Transport

-- An exception given to `set_exception` is a number.
pub record Reader : Type 0 where
  pub limit : ℕ
  pub buffer : Bytes
  pub eof : Bool
  pub waiter : Waiter
  pub exception : Option ℕ
  pub transport : Transport
  pub paused : Bool

-- set_exception
unfoldable pub set_exception : ℕ → Reader → Reader
set_exception x r = elim r.waiter [
  | pending ↦ record r { exception = some x; waiter = failed x }
  | _ ↦ record r { exception = some x }
]

-- _wakeup_waiter
unfoldable pub wakeup_waiter : Reader → Reader
wakeup_waiter r = elim r.waiter [ pending ↦ record r { waiter = resolved } | _ ↦ r ]

-- transport.resume_reading(); where the reader is paused, there is a transport
abbrev pub resume_reading : Transport → Transport
resume_reading (pausable reading) = pausable true
resume_reading transport = transport

-- _maybe_resume_transport
unfoldable pub maybe_resume_transport : Reader → Reader
maybe_resume_transport r =
    if r.paused && leb (length r.buffer) r.limit
    then record r { paused = false; transport = resume_reading r.transport }
    else r

-- feed_eof
unfoldable pub feed_eof : Reader → Reader
feed_eof r = wakeup_waiter (record r { eof = true })

-- The part of `feed_data` behind the wake-up.
unfoldable pub pause_when_full : Reader → Reader
pause_when_full r =
    if not r.paused && ltb (2 * r.limit) (length r.buffer)
    then elim r.transport [
      | absent ↦ r
      | unpausable ↦ record r { transport = absent }
      | pausable reading ↦ record r { transport = pausable false; paused = true }
    ]
    else r

-- feed_data
unfoldable pub feed_data : Bytes → Reader → Reader
feed_data [] r = r
feed_data (c ∷ cs) r = pause_when_full (wakeup_waiter (record r { buffer = r.buffer ++ (c ∷ cs) }))

-- What the protocol does while a coroutine waits.
pub data Input : Type 0 where
  data_fed : Bytes → Input
  eof_fed : Input
  exception_set : ℕ → Input

abbrev pub input : Input → Reader → Reader
input (data_fed bytes) r = feed_data bytes r
input eof_fed r = feed_eof r
input (exception_set x) r = set_exception x r

abbrev pub inputs : List Input → Reader → Reader
inputs [] r = r
inputs (i ∷ is) r = inputs is (input i r)

-- ValueError, LimitOverrunError with `consumed`, IncompleteReadError with `partial`, RuntimeError,
-- and an exception given to `set_exception`.
pub data ReadError : Type 0 where
  empty_separator : ReadError
  limit_overrun : ℕ → ReadError
  incomplete_read : Bytes → ReadError
  already_waiting : ReadError
  stored : ℕ → ReadError

-- A coroutine has returned, has raised, or waits with its local variables.
pub data Step {ℓ} (L : Type ℓ) : Type ℓ where
  returned : Bytes → Step L
  raised : ReadError → Step L
  awaits : L → Step L

module _ {ℓ} {L : Type ℓ} where
  -- _wait_for_data up to its `await`
  unfoldable pub wait_for_data : L → Reader → Step L × Reader
  wait_for_data l r = elim r.waiter [
    | pending ↦ (raised already_waiting, r)
    | _ ↦ (
      awaits l,
      if r.paused
          then record r { paused = false; transport = resume_reading r.transport; waiter = pending }
          else record r { waiter = pending },
    )
  ]

  -- A coroutine runs up to where it waits.
  abbrev pub settle : Step L × Reader → Step L × Reader
  settle (returned bytes, r) = (returned bytes, r)
  settle (raised x, r) = (raised x, r)
  settle (awaits l, r) = wait_for_data l r

  -- The `await` of `_wait_for_data` with its `finally`, and then the coroutine's next part.
  unfoldable pub resume : (L → Reader → Step L × Reader) → L → Reader → Waiter → Step L × Reader
  resume body l r idle = (awaits l, r)
  resume body l r pending = (awaits l, r)
  resume body l r resolved = settle (body l (record r { waiter = idle }))
  resume body l r (failed x) = (raised (stored x), record r { waiter = idle })

  abbrev pub wake : (L → Reader → Step L × Reader) → L → Reader → Step L × Reader
  wake body l r = resume body l r r.waiter

  -- A coroutine that runs to its end, or as far as the inputs bring it; those in one list come
  -- before it runs again.
  unfoldable pub drive :
      (L → Reader → Step L × Reader) → List (List Input) → Step L × Reader → Step L × Reader
  drive body [] (s, r) = (s, r)
  drive body (batch ∷ more) (returned bytes, r) = (returned bytes, r)
  drive body (batch ∷ more) (raised x, r) = (raised x, r)
  drive body (batch ∷ more) (awaits l, r) = drive body more (wake body l (inputs batch r))
