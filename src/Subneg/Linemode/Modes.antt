-- ===== src/Subneg/Linemode/Modes.antt =====
-- The exchange of line modes comes to an end.
use telnetlib.Prelude.{
  ℕ, zero, suc, ◌<◌, Bool, true, false, ◌&&◌, [], ◌∷◌, ◌≡◌, refl, arith, Bytes, bit_or, nat_beq,
  nat_eq, Bool-cases, inl, inr,
}
use telnetlib.Exec.{◌>>=◌}
use telnetlib.Slc.Objects.{linemode_eq, is_linemode_ack, lmode_ack}
use telnetlib.Session.{Session, send_iac}
use telnetlib.Session.Requests.{send_linemode}
use telnetlib.Subneg.Linemode.{suggested_mode, acknowledged_mode, handle_sb_linemode_mode}

-- Every byte below `n` is the same mode with the bit set.
modes_to : ℕ → Bool
modes_to zero = true
modes_to (suc n) = linemode_eq (bit_or n lmode_ack) n && modes_to n

modes_to_sound :
    (n mask : ℕ) → modes_to n ≡ true → mask < n → linemode_eq (bit_or mask lmode_ack) mask ≡ true
unfolding modes_to
modes_to_sound zero mask h lt = absurd (omega arith)
modes_to_sound (suc n) mask h lt = elim (Bool-cases (nat_beq mask n)) [
  | inl here ↦ ground (arith, here, h)
  | inr below ↦ modes_to_sound n mask (ground (arith, h)) (ground (arith, below))
]

modes_to-256 : modes_to 256 ≡ true
unfolding modes_to linemode_eq
modes_to-256 = refl

eq_refl : (mask : ℕ) → linemode_eq mask mask ≡ true
unfolding linemode_eq
eq_refl mask = ground arith

suggested_again :
    (mask : ℕ) (s : Session)
    → mask < 256
    → (suggested_mode mask (suggested_mode mask s).1).1.sent ≡ (suggested_mode mask s).1.sent
unfolding suggested_mode send_linemode send_iac ◌>>=◌
suggested_again mask s byte = ground (arith, modes_to_sound 256 mask modes_to-256 byte)

-- A suggestion of a mode, a byte without the acknowledge bit, is answered at most once: the same
-- byte read again writes nothing, on any connection, for a client and a server, and whether or
-- not LINEMODE is on.
pub suggestion_answered_once :
    (mask : ℕ) (s : Session)
    → mask < 256
    → is_linemode_ack mask ≡ false
    → let t = (handle_sb_linemode_mode (mask ∷ []) s).1 in
      (handle_sb_linemode_mode (mask ∷ []) t).1.sent ≡ t.sent
unfolding handle_sb_linemode_mode
suggestion_answered_once mask s byte plain = rw plain (suggested_again mask s byte)

-- An acknowledged mode that a client reads is never answered, and the client's mode stays the same
-- up to the acknowledge bit.
pub acknowledgement_silent :
    (mask : ℕ) (rest : Bytes) (s : Session)
    → is_linemode_ack mask ≡ true
    → s.server ≡ false
    → ((handle_sb_linemode_mode (mask ∷ rest) s).1.sent ≡ s.sent)
      × (linemode_eq s.linemode (handle_sb_linemode_mode (mask ∷ rest) s).1.linemode ≡ true)
unfolding handle_sb_linemode_mode acknowledged_mode ◌>>=◌
acknowledgement_silent mask rest s ack client = (ground arith, ground (arith, eq_refl s.linemode))
