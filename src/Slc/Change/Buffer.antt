-- ===== src/Slc/Change/Buffer.antt =====
-- The reply buffer of the SLC methods holds whole triplets, and never more than sixty of them.
use telnetlib.Prelude.{
  ℕ, zero, suc, ◌*◌, ◌+◌, ◌%◌, ◌≤◌, ◌≡◌, refl, Option-cases, inl, inr, Bool, [], ◌∷◌, arith, length,
  length-append, Bytes, nat_eq,
}
use telnetlib.Dict
use telnetlib.Dict.{Dict}
use telnetlib.Exec.{Exec, ◌>>=◌}
use telnetlib.Exec.Keeps.{Keeps, Keeps-pure, Keeps-gets, Keeps-bind, keeps_rules}
use telnetlib.Slc.Objects.{Slc, nslc}
use telnetlib.Slc.Change.{
  Tabs, entry, load, assign, put_new, slc_add, slc_add_own, send_entry, send_from, slc_send,
  default_mask, default_val, change_nosupport, change_default, accept, refuse, slc_change,
  reset_slctab, mark_sent, process_special, process_known, slc_process, process_triplets,
}

pub record IsBuffered (t : Tabs) : Type 0 where
  pub whole : length t.slc_buffer % 3 ≡ 0
  pub fits : length t.slc_buffer ≤ nslc * 6

slc_add-IsBuffered : (func : ℕ) (d : Slc) → Keeps IsBuffered (slc_add func d)
unfolding slc_add ◌>>=◌
slc_add-IsBuffered func d = record {
  at = λ t h.
      ground (arith, h.whole, h.fits, length-append t.slc_buffer (func ∷ d.mask ∷ d.val ∷ []));
}

-- an action that leaves the buffer alone
same_buffer {ℓ} :
    {A : Type ℓ} (m : Exec Tabs A)
    → ((t : Tabs) → (m t).1.slc_buffer ≡ t.slc_buffer)
    → Keeps IsBuffered m
same_buffer m e = record { at = λ t h. record { whole = rw e h.whole; fits = rw e h.fits } }

entry-IsBuffered : (func : ℕ) → Keeps IsBuffered (entry func)
unfolding entry ◌>>=◌
entry-IsBuffered func = same_buffer (entry func) (λ t. ground arith)

load-IsBuffered : (r : ℕ) → Keeps IsBuffered (load r)
unfolding load
load-IsBuffered r = Keeps-gets (λ t. t.objects r)

assign-IsBuffered : (r : ℕ) (f : Slc → Slc) → Keeps IsBuffered (assign r f)
unfolding assign ◌>>=◌
assign-IsBuffered r f = same_buffer (assign r f) (λ t. refl)

put_new-IsBuffered : (func : ℕ) (d : Slc) → Keeps IsBuffered (put_new func d)
unfolding put_new
put_new-IsBuffered func d = same_buffer (put_new func d) (λ t. refl)

default_val-IsBuffered : (func : ℕ) → Keeps IsBuffered (default_val func)
unfolding default_val ◌>>=◌
default_val-IsBuffered func = same_buffer (default_val func) (λ t. ground arith)

default_mask-IsBuffered : (func : ℕ) → Keeps IsBuffered (default_mask func)
unfolding default_mask
default_mask-IsBuffered func = search keeps_rules

slc_add_own-IsBuffered : (func : ℕ) → Keeps IsBuffered (slc_add_own func)
unfolding slc_add_own
slc_add_own-IsBuffered func =
    search (keeps_rules, entry-IsBuffered, load-IsBuffered, slc_add-IsBuffered)

ruleset buffer_rules = (
  keeps_rules, entry-IsBuffered, load-IsBuffered, assign-IsBuffered, put_new-IsBuffered,
  default_val-IsBuffered, default_mask-IsBuffered, slc_add-IsBuffered, slc_add_own-IsBuffered,
)

change_nosupport-IsBuffered : (func : ℕ) → Keeps IsBuffered (change_nosupport func)
unfolding change_nosupport
change_nosupport-IsBuffered func = search buffer_rules

change_default-IsBuffered : (func r l : ℕ) → Keeps IsBuffered (change_default func r l)
unfolding change_default
change_default-IsBuffered func r l = search buffer_rules depth 9

accept-IsBuffered : (func r : ℕ) (d : Slc) → Keeps IsBuffered (accept func r d)
unfolding accept
accept-IsBuffered func r d = search buffer_rules

refuse-IsBuffered : (func r l : ℕ) → Keeps IsBuffered (refuse func r l)
unfolding refuse
refuse-IsBuffered func r l = search buffer_rules depth 9

slc_change-IsBuffered : (func : ℕ) (d : Slc) → Keeps IsBuffered (slc_change func d)
unfolding slc_change
slc_change-IsBuffered func d =
    search
      (
        buffer_rules, change_nosupport-IsBuffered, change_default-IsBuffered, accept-IsBuffered,
        refuse-IsBuffered,
      )
      depth 12

send_entry-IsBuffered :
    (server : Bool) (tab : Dict ℕ ℕ) (func : ℕ) → Keeps IsBuffered (send_entry server tab func)
unfolding send_entry
send_entry-IsBuffered server tab func = elim (Option-cases (Dict.get tab func)) [
  | inl e ↦ rw (e, send_entry) (search buffer_rules)
  | inr (r, e) ↦ rw (e, send_entry) (search buffer_rules)
]

send_from-IsBuffered :
    (left : ℕ) (server : Bool) (tab : Dict ℕ ℕ) (func : ℕ)
    → Keeps IsBuffered (send_from left server tab func)
unfolding send_from
send_from-IsBuffered zero server tab func = Keeps-pure tt
send_from-IsBuffered (suc left) server tab func =
    Keeps-bind _ _ (send_entry-IsBuffered server tab func)
      λ _. send_from-IsBuffered left server tab (func + 1)

slc_send-IsBuffered : (server : Bool) (tab : Dict ℕ ℕ) → Keeps IsBuffered (slc_send server tab)
unfolding slc_send
slc_send-IsBuffered server tab = search (keeps_rules, send_from-IsBuffered)

reset_slctab-IsBuffered : Keeps IsBuffered reset_slctab
unfolding reset_slctab ◌>>=◌
reset_slctab-IsBuffered = same_buffer reset_slctab (λ t. refl)

mark_sent-IsBuffered : Keeps IsBuffered mark_sent
unfolding mark_sent ◌>>=◌
mark_sent-IsBuffered = same_buffer mark_sent (λ t. refl)

process_special-IsBuffered : (server : Bool) (d : Slc) → Keeps IsBuffered (process_special server d)
unfolding process_special
process_special-IsBuffered server d =
    search (keeps_rules, reset_slctab-IsBuffered, mark_sent-IsBuffered, slc_send-IsBuffered) depth 9

process_known-IsBuffered : (func : ℕ) (d : Slc) → Keeps IsBuffered (process_known func d)
unfolding process_known
process_known-IsBuffered func d = search (buffer_rules, slc_change-IsBuffered) depth 9

slc_process-IsBuffered :
    (server : Bool) (func : ℕ) (d : Slc) → Keeps IsBuffered (slc_process server func d)
unfolding slc_process
slc_process-IsBuffered server func d =
    search (buffer_rules, process_special-IsBuffered, process_known-IsBuffered)

triplets-Keeps : (server : Bool) (buf : Bytes) → Keeps IsBuffered (process_triplets server buf)
unfolding process_triplets
triplets-Keeps server (func ∷ flag ∷ value ∷ rest) =
    Keeps-bind _ _ (slc_process-IsBuffered server func _) (λ _. triplets-Keeps server rest)
triplets-Keeps server [] = Keeps-pure tt
triplets-Keeps server (func ∷ []) = Keeps-pure tt
triplets-Keeps server (func ∷ flag ∷ []) = Keeps-pure tt

-- Whatever triplets the peer sends, to a client or a server, and whether the processing returns or
-- raises: if the reply buffer held whole triplets and at most 180 bytes before, it does so after.
pub process_triplets-IsBuffered :
    (server : Bool) (buf : Bytes) (t : Tabs)
    → IsBuffered t
    → IsBuffered (process_triplets server buf t).1
process_triplets-IsBuffered server buf t h = (triplets-Keeps server buf).at t h
