-- ===== src/Client/Offers.antt =====
-- The character set that client.py agrees upon, against the policy that `send_charset` documents.
use telnetlib.Prelude.{
  Bool, true, false, List, [], ◌∷◌, Option, none, some, if◌then◌else◌, ◌==◌, bytes_eq, Bytes,
}
use telnetlib.Exec.{Result, ok, err}
use telnetlib.Client.{Client, System, Offer, canonical, decide, latin1_names, agree}
use telnetlib.Server.Terminal.{is_one_of}

abbrev pub is_ok : {A : Type 0} → Result A → Bool
is_ok (ok a) = true
is_ok (err x) = false

-- an offer in front of others, if Python knows it
abbrev pub with_known : Bytes → Result (Option Bytes) → List Offer → List Offer
with_known offer (err x) ks = ks
with_known offer (ok none) ks = ks
with_known offer (ok (some canon)) ks = (offer, canon) ∷ ks

-- The offers that Python knows, with its names for them.
unfoldable pub viable : System → List Bytes → List Offer
viable sys [] = []
viable sys (offer ∷ offers) = with_known offer (canonical sys offer) (viable sys offers)

abbrev pub first_of : List Offer → Option Offer
first_of [] = none
first_of (k ∷ ks) = some k

-- the first of them that is the encoding desired
abbrev pub exact : Bytes → List Offer → Option Offer
exact desired [] = none
exact desired (k ∷ ks) = let rest = exact desired ks in if k.1 == desired then some k else rest

-- the exact match, or else the first where Latin-1 is desired
abbrev pub picked : Option Offer → Bytes → Option Offer → Option Offer
picked (some k) desired first = some k
picked none desired first = if is_one_of desired latin1_names then first else none

-- The policy: the client's own encoding, if it is offered; else the first that is known, if the client
-- has no encoding of its own or it is Latin-1.
abbrev pub policy : Option Bytes → List Offer → Option Offer
policy none ks = first_of ks
policy (some desired) ks = picked (exact desired ks) desired (first_of ks)

abbrev or_first_of : Option Offer → List Offer → Option Offer
or_first_of (some first) ks = some first
or_first_of none ks = first_of ks

-- the policy, with what is found so far
abbrev policy_from : Option Bytes → Option Offer → List Offer → Option Offer
policy_from none first ks = or_first_of first ks
policy_from (some desired) first ks = picked (exact desired ks) desired (or_first_of first ks)

-- the decision on what the loop has found
abbrev decided : Option Bytes → Result (Option Offer × Option Offer) → Result (Option Offer)
decided desired (ok found) = ok (decide desired found)
decided desired (err x) = err x

-- The client that has agreed upon an offer, or upon none.
abbrev pub agreed : Client → Option Offer → Client
agreed c none = c
agreed c (some (offer, canon)) = record c {
  charset = canon;
  lang = b'e' ∷ b'n' ∷ b'_' ∷ b'U' ∷ b'S' ∷ b'.' ∷ canon;
}

abbrev pub answer_of : Option Offer → Bytes
answer_of none = []
answer_of (some (offer, canon)) = offer

-- what is done with the decision
abbrev settled :
    System → Client → Option Bytes → Result (Option Offer × Option Offer) → Result Bytes × Client
settled sys c desired found = elim found [
  | ok pair ↦ agree sys c (decide desired pair)
  | err e ↦ (err e, c)
]
