-- ===== src/Slc/Table.antt =====
-- slc.py: BSD_SLC_TAB, `generate_slctab` and `snoop`, over a store of objects.
use telnetlib.Prelude.{
  ℕ, zero, suc, ◌+◌, ◌&&◌, not, List, [], ◌∷◌, Option, none, some, ◌==◌, nat_eq, if◌then◌else◌,
}
use telnetlib.Dict
use telnetlib.Dict.{Dict}
use telnetlib.Slc.Objects.{
  Slc, new_nosupport, nslc, slc_default, slc_variable, slc_synch, slc_brk, slc_ip, slc_ao, slc_ayt,
  slc_eor, slc_abort, slc_eof, slc_susp, slc_ec, slc_el, slc_ew, slc_rp, slc_lnext, slc_xon,
  slc_xoff, slc_forw1, slc_forw2,
}

-- What each reference stands for.
abbrev pub Store : Type 0
Store = ℕ → Slc

abbrev pub update : Store → ℕ → Slc → Store
update h r d q = if q == r then d else h q

abbrev pub object : ℕ → ℕ → Slc
object m v = record { mask = m; val = v }

-- The objects of BSD_SLC_TAB, in its order. 98 is _SLC_VARIABLE_FIO, 66 is _SLC_VARIABLE_FI and
-- 34 is _SLC_VARIABLE_FO.
abbrev pub bsd_objects : List (ℕ × Slc)
bsd_objects =
    (slc_forw1, new_nosupport)
    ∷ (slc_forw2, new_nosupport)
    ∷ (slc_eof, object slc_variable 4)
    ∷ (slc_ec, object slc_variable 127)
    ∷ (slc_el, object slc_variable 21)
    ∷ (slc_ip, object 98 3)
    ∷ (slc_abort, object 98 28)
    ∷ (slc_xon, object slc_variable 17)
    ∷ (slc_xoff, object slc_variable 19)
    ∷ (slc_ew, object slc_variable 23)
    ∷ (slc_rp, object slc_variable 18)
    ∷ (slc_lnext, object slc_variable 22)
    ∷ (slc_ao, object 34 15)
    ∷ (slc_susp, object 66 26)
    ∷ (slc_ayt, object slc_variable 20)
    ∷ (slc_brk, object slc_default 0)
    ∷ (slc_synch, object slc_default 0)
    ∷ (slc_eor, object slc_default 0)
    ∷ []

-- a dict display: the object of each entry is created, from reference `r` on
abbrev pub load_objects : List (ℕ × Slc) → ℕ → Store → Store
load_objects [] r h = h
load_objects ((f, d) ∷ rest) r h = load_objects rest (suc r) (update h r d)

abbrev pub refs_of : List (ℕ × Slc) → ℕ → Dict ℕ ℕ
refs_of [] r = []
refs_of ((f, d) ∷ rest) r = (f, r) ∷ refs_of rest (suc r)

-- BSD_SLC_TAB: its references are 0 to 17.
abbrev pub bsd_slc_tab : Dict ℕ ℕ
bsd_slc_tab = refs_of bsd_objects 0

abbrev pub initial_store : Store
initial_store = load_objects bsd_objects 0 (λ r. new_nosupport)

-- The loop of `generate_slctab`, with the rounds left. A function that `tabset` lists takes the
-- object of `tabset`; any other takes a new object, at the next free reference.
generate_from : ℕ → ℕ → Dict ℕ ℕ → ℕ → Store → Dict ℕ ℕ × Store
generate_from zero func tabset next h = ([], h)
generate_from (suc left) func tabset next h = elim (Dict.get tabset func) [
  | some r ↦ let (tab, h') = generate_from left (func + 1) tabset next h in ((func, r) ∷ tab, h')
  | none ↦
      let (tab, h') =
        generate_from left (func + 1) tabset (next + 1) (update h next new_nosupport) in
      ((func, next) ∷ tab, h')
]

-- generate_slctab
unfoldable pub generate_slctab : Dict ℕ ℕ → ℕ → Store → Dict ℕ ℕ × Store
unfolding generate_from
generate_slctab tabset next h = generate_from nslc 1 tabset next h

-- snoop: the first function of the table whose value is `byte`, behind its callback
unfoldable pub snoop :
    {C : Type 0} → ℕ → Dict ℕ ℕ → Store → Dict ℕ C → Option C × Option ℕ × Option Slc
snoop byte [] h callbacks = (none, none, none)
snoop byte ((func, r) ∷ tab) h callbacks =
    if byte == (h r).val && not ((h r).val == 0)
    then (Dict.get callbacks func, some func, some (h r))
    else snoop byte tab h callbacks
