-- ===== src/Slc/Change/Defaults.antt =====
-- The default table: what a request to reset to it does.
use telnetlib.Prelude.{
  ℕ, zero, suc, ◌+◌, ◌*◌, ◌≤◌, ◌<◌, ◌≡◌, ◌≢◌, refl, Bool, false, some, none, arith, length, nat_eq,
  Option-cases, inl, inr,
}
use telnetlib.Dict
use telnetlib.Dict.{Dict}
use telnetlib.Exec.{Exec, err, attribute_error, key_error, gets, when, ◌>>=◌, ◌>>◌}
use telnetlib.Exec.Keeps.{Keeps, Keeps-pure, Keeps-gets, Keeps-if, Keeps-bind, keeps_rules}
use telnetlib.Slc.Objects.{Slc, level, is_ack, slc_default, nslc}
use telnetlib.Slc.Change.{
  Tabs, entry, load, slc_add, send_entry, send_from, slc_send, mark_sent, reset_slctab,
  process_special, slc_process, change_default, default_mask,
}
use telnetlib.Slc.Change.Replies.{Known, IsProposal, slc_process_accepts}

-- the tables and the objects are those of `u`
record SameTabs (u t : Tabs) : Type 0 where
  objects : t.objects ≡ u.objects
  slctab : t.slctab ≡ u.slctab
  default_slc_tab : t.default_slc_tab ≡ u.default_slc_tab

module _ (u : Tabs) where
  slc_add-SameTabs : (func : ℕ) (d : Slc) → Keeps (SameTabs u) (slc_add func d)
  unfolding slc_add ◌>>=◌
  slc_add-SameTabs func d = record {
    at = λ t h. ground (arith, h.objects, h.slctab, h.default_slc_tab);
  }

  mark_sent-SameTabs : Keeps (SameTabs u) mark_sent
  unfolding mark_sent ◌>>=◌
  mark_sent-SameTabs = record { at = λ t h. ground (arith, h.objects, h.slctab, h.default_slc_tab) }

  send_entry-SameTabs :
      (server : Bool) (tab : Dict ℕ ℕ) (func : ℕ) → Keeps (SameTabs u) (send_entry server tab func)
  unfolding send_entry
  send_entry-SameTabs server tab func = elim (Option-cases (Dict.get tab func)) [
    | inl e ↦ rw (e, send_entry) (search keeps_rules)
    | inr (r, e) ↦ rw (e, send_entry) (search (keeps_rules, slc_add-SameTabs))
  ]

  send_from-SameTabs :
      (left : ℕ) (server : Bool) (tab : Dict ℕ ℕ) (func : ℕ)
      → Keeps (SameTabs u) (send_from left server tab func)
  unfolding send_from
  send_from-SameTabs zero server tab func = Keeps-pure tt
  send_from-SameTabs (suc left) server tab func =
      Keeps-bind _ _ (send_entry-SameTabs server tab func)
        λ _. send_from-SameTabs left server tab (func + 1)

  slc_send-SameTabs : (server : Bool) (tab : Dict ℕ ℕ) → Keeps (SameTabs u) (slc_send server tab)
  unfolding slc_send
  slc_send-SameTabs server tab = search (keeps_rules, send_from-SameTabs)

-- the state after the first statement of the special request
abbrev reset : Tabs → Tabs
reset t = record t { slctab = t.default_slc_tab }

-- what follows that statement
abbrev after_reset : Bool → Exec Tabs (Unit {0})
after_reset server = do
  tab ← gets (λ t. t.default_slc_tab)
  slc_send server tab
  when server mark_sent

after_reset-SameTabs : (u : Tabs) (server : Bool) → Keeps (SameTabs u) (after_reset server)
after_reset-SameTabs u server = Keeps-bind _ _ (Keeps-gets _) λ tab.
    Keeps-bind _ _ (slc_send-SameTabs u server tab)
      λ _. Keeps-if server _ _ (mark_sent-SameTabs u) (Keeps-pure tt)

special-after_reset :
    (server : Bool) (d : Slc) (t : Tabs)
    → level d ≡ slc_default
    → process_special server d t ≡ after_reset server (reset t)
unfolding process_special reset_slctab ◌>>=◌
special-after_reset server d t h = rw h

special-SameTabs :
    (server : Bool) (d : Slc) (t : Tabs)
    → level d ≡ slc_default
    → SameTabs (reset t) (slc_process server 0 d t).1
unfolding slc_process
special-SameTabs server d t h = rw (special-after_reset server d t h) (
    (after_reset-SameTabs (reset t) server).at (reset t)
      (record { objects = refl; slctab = refl; default_slc_tab = refl }))

unlisted :
    (server : Bool) (func : ℕ) (e : Slc) (t : Tabs)
    → 0 < func
    → func ≤ nslc
    → Dict.get t.slctab func ≡ none
    → slc_process server func e t ≡ (err key_error, t)
unfolding slc_process entry load ◌>>=◌
unlisted server func e t pos top missing = ground arith

-- After a request for the defaults, answered or cut short by a full buffer, the table is the
-- default table, and a function that is not in it cannot be processed any more: its definition
-- raises `KeyError`, whatever it holds.
pub key_error_after_reset :
    (server : Bool) (func : ℕ) (d e : Slc) (t : Tabs)
    → level d ≡ slc_default
    → 0 < func
    → func ≤ nslc
    → Dict.get t.default_slc_tab func ≡ none
    → slc_process server func e (slc_process server 0 d t).1
      ≡ (err key_error, (slc_process server 0 d t).1)
key_error_after_reset server func d e t h pos top missing =
    unlisted server func e _ pos top (rw (special-SameTabs server d t h).slctab missing)

-- A request for the default of a function that the default table lacks raises `AttributeError`
-- and changes nothing, unless the table has the function at level DEFAULT, or the same value
-- there.
pub attribute_error_without_default :
    (server : Bool) (func r : ℕ) (d : Slc) (t : Tabs)
    → Known t func r
    → level d ≡ slc_default
    → is_ack d ≡ false
    → level (t.objects r) ≢ slc_default
    → Dict.get t.default_slc_tab func ≡ none
    → slc_process server func d t ≡ (err attribute_error, t)
unfolding slc_process entry load change_default default_mask ◌>>=◌
attribute_error_without_default server func r d t k h a own missing = ground (arith, k.listed)

-- Where the table and the default table hold one object for a function, as a new table does, an
-- accepted proposal changes the default: after a following request for the defaults the function
-- has the peer's definition, not the one that it began with.
pub defaults_follow_peer :
    (server : Bool) (func r : ℕ) (d e : Slc) (t : Tabs)
    → Known t func r
    → Dict.get t.default_slc_tab func ≡ some r
    → IsProposal d (t.objects r)
    → length t.slc_buffer < nslc * 6
    → level e ≡ slc_default
    → (Dict.get (slc_process server 0 e (slc_process server func d t).1).1.slctab func ≡ some r)
      × ((slc_process server 0 e (slc_process server func d t).1).1.objects r ≡ d)
defaults_follow_peer server func r d e t k shared p room h =
    let t1 = (slc_process server func d t).1 in
    let (done, (own, buffer, tab, defaults)) = slc_process_accepts server func r d t k p room in
    let same = special-SameTabs server e t1 h in
    (rw same.slctab (rw defaults shared), rw same.objects (ground (arith, own r)))
