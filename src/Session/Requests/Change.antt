-- ===== src/Session/Requests/Change.antt =====
-- stream_writer.py: `request_linemode_change`.
use telnetlib.Prelude.{
  ℕ, ◌-◌, Bool, true, false, List, [], ◌∷◌, Option, none, some, bit_and, bit_or,
}
use telnetlib.Exec.{gets, ◌>>=◌}
use telnetlib.Session.{Act}
use telnetlib.Session.Requests.{send_linemode}

-- the loop over `flag_map`; `~bit` is 255 - bit, as the mask is a byte
unfoldable pub apply_flags : List (Option Bool × ℕ) → ℕ → ℕ
apply_flags [] mask = mask
apply_flags ((none, bit) ∷ flags) mask = apply_flags flags mask
apply_flags ((some true, bit) ∷ flags) mask = apply_flags flags (bit_or mask bit)
apply_flags ((some false, bit) ∷ flags) mask = apply_flags flags (bit_and mask (255 - bit))

-- flag_map, with the bits of EDIT, TRAPSIG, SOFT_TAB and LIT_ECHO
abbrev pub flag_map : Option Bool → Option Bool → Option Bool → Option Bool → List (Option Bool × ℕ)
flag_map edit trapsig soft_tab lit_echo =
    (edit, 1) ∷ (trapsig, 2) ∷ (soft_tab, 8) ∷ (lit_echo, 16) ∷ []

-- request_linemode_change
unfoldable pub request_linemode_change :
    Option Bool → Option Bool → Option Bool → Option Bool → Act (Unit {0})
request_linemode_change edit trapsig soft_tab lit_echo = do
  mask ← gets (λ s. s.linemode)
  send_linemode (apply_flags (flag_map edit trapsig soft_tab lit_echo) mask)
