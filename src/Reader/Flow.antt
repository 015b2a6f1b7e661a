-- ===== src/Reader/Flow.antt =====
-- The transport is paused only where there is enough to read.
pub mod Calls
use telnetlib.Prelude.{
  ℕ, suc, ◌-◌, Bool, true, false, not, ◌&&◌, List, [], ◌∷◌, Option, none, some, if◌then◌else◌, ◌≡◌,
  inl, inr, refl, arith, Bytes, length, length-append, Option-cases, drop, ltb, leb, ◌==◌, nat_eq,
}
use telnetlib.Reader.{
  Reader, Input, Waiter, idle, pending, resolved, failed, Transport, pausable, data_fed, eof_fed,
  exception_set, input, inputs, Step, returned, raised, awaits, maybe_resume_transport, feed_data,
  feed_eof, set_exception, wakeup_waiter, pause_when_full, wait_for_data, settle, resume, drive,
}
use telnetlib.Reader.Reads.{
  find_at, take_front, take_until, wait_unless_eof, until_round, exactly_round, line_round, nearest,
  crlf, crnul, cr, lf, unless_exception, readuntil, readexactly, read, readline,
}

abbrev is_pending : Waiter → Bool
is_pending pending = true
is_pending _ = false

-- whether a transport that can be paused is paused
abbrev pub is_stopped : Transport → Bool
is_stopped (pausable reading) = not reading
is_stopped _ = false

-- The reader knows whether the transport is paused, and it is not while a coroutine waits.
pub record IsCalm (r : Reader) : Type 0 where
  pub knows : is_stopped r.transport ≡ r.paused
  pub waits : (is_pending r.waiter && r.paused) ≡ false

-- The transport is paused only at the end, or with more in the buffer than the limit.
pub record IsFlowing (r : Reader) : Type 0 where
  pub calm : IsCalm r
  pub full : (r.paused && (not r.eof && leb (length r.buffer) r.limit)) ≡ false

IsFlowing-set_exception : (x : ℕ) (r : Reader) → IsFlowing r → IsFlowing (set_exception x r)
unfolding set_exception
IsFlowing-set_exception x r f = record {
  calm = record { knows = ground (arith, f.calm.knows); waits = ground (arith, f.calm.waits) };
  full = ground (arith, f.full);
}

IsFlowing-feed_eof : (r : Reader) → IsFlowing r → IsFlowing (feed_eof r)
unfolding feed_eof wakeup_waiter
IsFlowing-feed_eof r f = record {
  calm = record { knows = ground (arith, f.calm.knows); waits = ground (arith, f.calm.waits) };
  full = ground (arith, f.full);
}

IsFlowing-feed_data : (bytes : Bytes) (r : Reader) → IsFlowing r → IsFlowing (feed_data bytes r)
unfolding feed_data wakeup_waiter pause_when_full
IsFlowing-feed_data [] r f = f
IsFlowing-feed_data (c ∷ cs) r f = record {
  calm = record { knows = ground (arith, f.calm.knows); waits = ground (arith, f.calm.waits) };
  full = ground (arith, f.full, length-append r.buffer (c ∷ cs));
}

pub IsFlowing-maybe_resume : (r : Reader) → IsCalm r → IsFlowing (maybe_resume_transport r)
unfolding maybe_resume_transport
IsFlowing-maybe_resume r f = record {
  calm = record { knows = ground (arith, f.knows); waits = ground (arith, f.waits) };
  full = ground (arith, f.knows);
}

pub IsFlowing-input : (i : Input) (r : Reader) → IsFlowing r → IsFlowing (input i r)
IsFlowing-input (data_fed bytes) r f = IsFlowing-feed_data bytes r f
IsFlowing-input eof_fed r f = IsFlowing-feed_eof r f
IsFlowing-input (exception_set x) r f = IsFlowing-set_exception x r f

IsFlowing-inputs : (is : List Input) (r : Reader) → IsFlowing r → IsFlowing (inputs is r)
IsFlowing-inputs [] r f = f
IsFlowing-inputs (i ∷ is) r f = IsFlowing-inputs is (input i r) (IsFlowing-input i r f)

idle-IsFlowing : (r : Reader) → IsFlowing r → IsFlowing (record r { waiter = idle })
idle-IsFlowing r f = record { calm = record { knows = f.calm.knows; waits = refl }; full = f.full }

-- What a part of a coroutine leaves: where it waits, the buffer may have become short.
module _ {L : Type 0} where
  abbrev pub IsSafe : Step L × Reader → Type 0
  IsSafe (returned bytes, r) = IsFlowing r
  IsSafe (raised x, r) = IsFlowing r
  IsSafe (awaits l, r) = IsCalm r

  abbrev pub Flows : Step L × Reader → Type 0
  Flows p = IsFlowing p.1

  wait_for_data-Flows : (l : L) (r : Reader) → IsCalm r → Flows (wait_for_data l r)
  unfolding wait_for_data
  wait_for_data-Flows l r c = record {
    calm = record { knows = ground (arith, c.knows); waits = ground (arith, c.waits) };
    full = ground (arith, c.waits);
  }

  pub settle-Flows : (p : Step L × Reader) → IsSafe p → Flows (settle p)
  settle-Flows (returned bytes, r) f = f
  settle-Flows (raised x, r) f = f
  settle-Flows (awaits l, r) c = wait_for_data-Flows l r c

  module _ (body : L → Reader → Step L × Reader)
      (safe : (l : L) (r : Reader) → IsFlowing r → IsSafe (body l r)) where
    resume-Flows : (w : Waiter) (l : L) (r : Reader) → IsFlowing r → Flows (resume body l r w)
    unfolding resume
    resume-Flows idle l r f = f
    resume-Flows pending l r f = f
    resume-Flows resolved l r f =
        settle-Flows (body l (record r { waiter = idle })) (safe l _ (idle-IsFlowing r f))
    resume-Flows (failed x) l r f = idle-IsFlowing r f

    pub drive-Flows :
        (schedule : List (List Input)) (p : Step L × Reader)
        → Flows p
        → Flows (drive body schedule p)
    unfolding drive
    drive-Flows [] (s, r) f = f
    drive-Flows (batch ∷ more) (returned bytes, r) f = f
    drive-Flows (batch ∷ more) (raised x, r) f = f
    drive-Flows (batch ∷ more) (awaits l, r) f =
        drive-Flows more _
          (resume-Flows (inputs batch r).waiter l (inputs batch r) (IsFlowing-inputs batch r f))

  pub if-IsSafe :
      (b : Bool) (p q : Step L × Reader)
      → (b ≡ true → IsSafe p)
      → (b ≡ false → IsSafe q)
      → IsSafe (if b then p else q)
  if-IsSafe true p q one other = one refl
  if-IsSafe false p q one other = other refl

  pub wait_unless_eof-IsSafe : (l : L) (r : Reader) → IsFlowing r → IsSafe (wait_unless_eof l r)
  unfolding wait_unless_eof
  wait_unless_eof-IsSafe l r f =
      if-IsSafe r.eof _ _
        (λ done. record {
          calm = record { knows = f.calm.knows; waits = f.calm.waits };
          full = ground (arith, done);
        })
        (λ going. f.calm)

  pub unless_exception-IsSafe :
      (x : Option ℕ) (body : Reader → Step L × Reader) (r : Reader)
      → IsFlowing r
      → IsSafe (body r)
      → IsSafe (unless_exception x body r)
  unless_exception-IsSafe none body r f safe = safe
  unless_exception-IsSafe (some x) body r f safe = f
