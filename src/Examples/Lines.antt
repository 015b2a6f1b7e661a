-- ===== src/Examples/Lines.antt =====
-- The theorem on the line buffer, at an erased word.
use telnetlib.Prelude.{true, [], ◌∷◌, none}
use telnetlib.Slc.Objects.{slc_ec, slc_ew, slc_variable}
use telnetlib.Shell.LinemodeBuffer.{LinemodeBuffer}

-- "a bc " before a ^W
abbrev typed : LinemodeBuffer
typed = record {
  buf = 32 ∷ b'c' ∷ b'b' ∷ 32 ∷ b'a' ∷ [];
  slctab =
      (slc_ec, record { mask = slc_variable; val = 127 })
      ∷ (slc_ew, record { mask = slc_variable; val = 23 })
      ∷ [];
  forwardmask = none;
  trapsig = true;
}
