-- ===== src/Examples/Characters.antt =====
-- The theorems on special characters, at the table of a new writer.
use telnetlib.Prelude.{ℕ, refl, arith, nat_eq}
use telnetlib.Dict
use telnetlib.Slc.Objects.{Slc, level, is_ack, slc_ip, slc_variable, slc_default}
use telnetlib.Slc.Table.{generate_slctab}
use telnetlib.Slc.Change.{new_tabs}
use telnetlib.Slc.Change.Replies.{Known, IsProposal}

-- the reference of the entry of IP in the default table
abbrev ip_ref : ℕ
ip_ref = 5

-- VARIABLE, with the character 7
abbrev proposal : Slc
proposal = record { mask = slc_variable; val = 7 }

-- a request for the default
abbrev wanted_default : Slc
wanted_default = record { mask = slc_default; val = 0 }

ip_Known : Known new_tabs slc_ip ip_ref
unfolding new_tabs generate_slctab Dict.get
ip_Known = record { positive = omega arith; in_range = omega arith; listed = refl }

ip_IsProposal : IsProposal proposal (new_tabs.objects ip_ref)
unfolding new_tabs generate_slctab Dict.get level is_ack
ip_IsProposal = record {
  not_ack = refl;
  supported = ground arith;
  not_default = ground arith;
  differs = ground arith;
  has_value = ground arith;
}

unlisted_Known : Known new_tabs 20 19
unfolding new_tabs generate_slctab Dict.get
unlisted_Known = record { positive = omega arith; in_range = omega arith; listed = refl }
