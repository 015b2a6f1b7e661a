-- ===== src/Slc/Objects.antt =====
-- slc.py: class `SLC`, its levels and flags, and class `Linemode`.
use telnetlib.Prelude.{ℕ, ◌^◌, Bool, not, bit_and, bit_or, ◌==◌, nat_eq}

abbrev pub slc_nosupport : ℕ
slc_nosupport = 0

abbrev pub slc_cantchange : ℕ
slc_cantchange = 1

abbrev pub slc_variable : ℕ
slc_variable = 2

abbrev pub slc_default : ℕ
slc_default = 3

abbrev pub slc_flushout : ℕ
slc_flushout = 32

abbrev pub slc_flushin : ℕ
slc_flushin = 64

abbrev pub slc_ack : ℕ
slc_ack = 128

abbrev pub slc_levelbits : ℕ
slc_levelbits = 3

abbrev pub nslc : ℕ
nslc = 30

abbrev pub slc_synch : ℕ
slc_synch = 1

abbrev pub slc_brk : ℕ
slc_brk = 2

abbrev pub slc_ip : ℕ
slc_ip = 3

abbrev pub slc_ao : ℕ
slc_ao = 4

abbrev pub slc_ayt : ℕ
slc_ayt = 5

abbrev pub slc_eor : ℕ
slc_eor = 6

abbrev pub slc_abort : ℕ
slc_abort = 7

abbrev pub slc_eof : ℕ
slc_eof = 8

abbrev pub slc_susp : ℕ
slc_susp = 9

abbrev pub slc_ec : ℕ
slc_ec = 10

abbrev pub slc_el : ℕ
slc_el = 11

abbrev pub slc_ew : ℕ
slc_ew = 12

abbrev pub slc_rp : ℕ
slc_rp = 13

abbrev pub slc_lnext : ℕ
slc_lnext = 14

abbrev pub slc_xon : ℕ
slc_xon = 15

abbrev pub slc_xoff : ℕ
slc_xoff = 16

abbrev pub slc_forw1 : ℕ
slc_forw1 = 17

abbrev pub slc_forw2 : ℕ
slc_forw2 = 18

abbrev pub posix_vdisable : ℕ
posix_vdisable = 255

-- `bool(n & flag)` for the flag of bit `k`
abbrev has_bit : ℕ → ℕ → Bool
has_bit n k = not (bit_and n (2 ^ k) == 0)

-- class `SLC`; its two bytes
pub record Slc : Type 0 where
  pub mask : ℕ
  pub val : ℕ

-- SLC.level
unfoldable pub level : Slc → ℕ
level d = bit_and d.mask slc_levelbits

-- SLC.nosupport
unfoldable pub is_nosupport : Slc → Bool
is_nosupport d = level d == slc_nosupport

-- SLC.ack, as a truth value
unfoldable pub is_ack : Slc → Bool
is_ack d = has_bit d.mask 7

-- SLC.set_value
abbrev pub set_value : ℕ → Slc → Slc
set_value v d = record d { val = v }

-- SLC.set_mask
abbrev pub set_mask : ℕ → Slc → Slc
set_mask m d = record d { mask = m }

-- SLC.set_flag
abbrev pub set_flag : ℕ → Slc → Slc
set_flag f d = record d { mask = bit_or d.mask f }

-- SLC_nosupport()
abbrev pub new_nosupport : Slc
new_nosupport = record { mask = slc_nosupport; val = posix_vdisable }

-- Linemode: the bit flags of a mask
abbrev pub lmode_ack : ℕ
lmode_ack = 4

-- Linemode.__eq__: the acknowledge bit is ignored
unfoldable pub linemode_eq : ℕ → ℕ → Bool
linemode_eq a b = bit_or a lmode_ack == bit_or b lmode_ack

-- Linemode.local
unfoldable pub is_local : ℕ → Bool
is_local m = has_bit m 0

-- Linemode.ack
unfoldable pub is_linemode_ack : ℕ → Bool
is_linemode_ack m = has_bit m 2
