-- ===== src/Slc/Change/Replies.antt =====
-- What `_slc_process` answers to one definition of a known function.
use telnetlib.Prelude.{
  ℕ, ◌*◌, ◌≤◌, ◌<◌, ◌≡◌, ◌≢◌, ◌⊎◌, Bool, true, false, [], ◌∷◌, ◌++◌, some, arith, length, nat_eq,
  ◌==◌, if◌then◌else◌,
}
use telnetlib.Dict
use telnetlib.Exec.{ok, ◌>>=◌}
use telnetlib.Slc.Objects.{Slc, level, is_ack, set_flag, slc_ack, slc_default, slc_nosupport, nslc}
use telnetlib.Slc.Change.{Tabs, entry, load, assign, slc_add, accept, slc_process}

-- `func` is a function in range, whose table entry is the object at `r`.
pub record Known (t : Tabs) (func r : ℕ) : Type 0 where
  pub positive : 0 < func
  pub in_range : func ≤ nslc
  pub listed : Dict.get t.slctab func ≡ some r

-- The definition calls for no answer: it is acknowledged, or it is what the table has.
abbrev pub IsSettled : Slc → Slc → Type 0
IsSettled d own = (is_ack d ≡ true) ⊎ ((level d ≡ level own) × (d.val ≡ own.val))

-- A settled definition of a known function changes nothing and is not answered, so that an
-- acknowledgement never starts another round.
pub slc_process_settled :
    (server : Bool) (func r : ℕ) (d : Slc) (t : Tabs)
    → Known t func r
    → IsSettled d (t.objects r)
    → slc_process server func d t ≡ (ok tt, t)
unfolding slc_process entry load ◌>>=◌
slc_process_settled server func r d t k s = ground (arith, k.listed)

-- `d` proposes another value for a function that has a value, at level VARIABLE or CANTCHANGE.
pub record IsProposal (d own : Slc) : Type 0 where
  pub not_ack : is_ack d ≡ false
  pub supported : level d ≢ slc_nosupport
  pub not_default : level d ≢ slc_default
  pub differs : d.val ≢ own.val
  pub has_value : own.val ≢ 0

-- The whole effect of an accepted proposal.
abbrev pub IsAccepted : Tabs → ℕ → ℕ → Slc → Tabs → Type 0
IsAccepted t func r d t' =
    ((q : ℕ) → t'.objects q ≡ (if q == r then d else t.objects q))
    × (t'.slc_buffer ≡ t.slc_buffer ++ (func ∷ (set_flag slc_ack d).mask ∷ d.val ∷ []))
    × (t'.slctab ≡ t.slctab)
    × (t'.default_slc_tab ≡ t.default_slc_tab)

slc_process-accept :
    (server : Bool) (func r : ℕ) (d : Slc) (t : Tabs)
    → Known t func r
    → IsProposal d (t.objects r)
    → slc_process server func d t ≡ accept func r d t
unfolding slc_process entry load ◌>>=◌
slc_process-accept server func r d t k p = ground (arith, k.listed)

accept_lem :
    (func r : ℕ) (d : Slc) (t : Tabs)
    → length t.slc_buffer < nslc * 6
    → ((accept func r d t).0 ≡ ok tt) × IsAccepted t func r d (accept func r d t).1
unfolding accept assign slc_add ◌>>=◌
accept_lem func r d t room =
    (ground arith, (λ q. ground arith, ground arith, ground arith, ground arith))

-- A proposal for a known function is taken over as it is and answered by one triplet, the same
-- definition with the acknowledge bit, if the buffer has room; no other object and no table
-- changes.
pub slc_process_accepts :
    (server : Bool) (func r : ℕ) (d : Slc) (t : Tabs)
    → Known t func r
    → IsProposal d (t.objects r)
    → length t.slc_buffer < nslc * 6
    → ((slc_process server func d t).0 ≡ ok tt)
      × IsAccepted t func r d (slc_process server func d t).1
slc_process_accepts server func r d t k p room =
    rw (slc_process-accept server func r d t k p) (accept_lem func r d t room)
