-- ===== src/Exec/Keeps.antt =====
-- What an action leaves true, one rule for each way to build an action.
use telnetlib.Prelude.{Bool, true, false, ◌≡◌, refl, ap, Option, none, some, if◌then◌else◌}
use telnetlib.Exec.{
  Exc, Result, ok, err, Exec, pure, raise, gets, of_option, modify, continue, ◌>>=◌, finally,
}

-- `act` keeps `Inv`, whether it returns or raises.
pub record Keeps {ℓ κ μ} {S : Type ℓ} {A : Type κ} (Inv : S → Type μ) (act : Exec S A)
    : Type (ℓ ⊔ μ) where
  pub at : (s : S) → Inv s → Inv (act s).1

module _ {ℓ κ μ} {S : Type ℓ} {A : Type κ} {Inv : S → Type μ} where
  pub Keeps-pure : (a : A) → Keeps Inv (pure a)
  unfolding pure
  Keeps-pure a = record { at = λ state holds. holds }

  pub Keeps-raise : (x : Exc) → Keeps Inv (raise {A = A} x)
  unfolding raise
  Keeps-raise x = record { at = λ state holds. holds }

  pub Keeps-gets : (f : S → A) → Keeps Inv (gets f)
  unfolding gets
  Keeps-gets f = record { at = λ state holds. holds }

  pub Keeps-of_option : (x : Exc) (o : Option A) → Keeps Inv (of_option x o)
  unfolding of_option
  Keeps-of_option x none = record { at = λ state holds. holds }
  Keeps-of_option x (some a) = record { at = λ state holds. holds }

  pub Keeps-if :
      (b : Bool) (act other : Exec S A)
      → Keeps Inv act
      → Keeps Inv other
      → Keeps Inv (if b then act else other)
  Keeps-if true act other km kn = km
  Keeps-if false act other km kn = kn

  pub Keeps-finally :
      (act : Exec S A) (f : S → S)
      → Keeps Inv act
      → ((s : S) → Inv s → Inv (f s))
      → Keeps Inv (finally act f)
  Keeps-finally act f km kf = record { at = λ s holds. kf _ (km.at s holds) }

pub Keeps-modify {ℓ μ} :
    {S : Type ℓ} {Inv : S → Type μ} (f : S → S)
    → ((s : S) → Inv s → Inv (f s))
    → Keeps Inv (modify f)
unfolding modify
Keeps-modify f holds = record { at = holds }

module _ {ℓ κ ν μ} {S : Type ℓ} {A : Type κ} {B : Type ν} {Inv : S → Type μ} where
  Keeps-continue :
      (r : Result A) (f : A → Exec S B)
      → ((a : A) → Keeps Inv (f a))
      → (s : S) → Inv s
      → Inv (continue r f s).1
  Keeps-continue (ok a) f kf s holds = (kf a).at s holds
  Keeps-continue (err x) f kf s holds = holds

  pub Keeps-bind :
      (act : Exec S A) (f : A → Exec S B)
      → Keeps Inv act
      → ((a : A) → Keeps Inv (f a))
      → Keeps Inv (act >>= f)
  unfolding ◌>>=◌
  Keeps-bind act f km kf = record {
    at = λ s holds. let (r, s') = act s in Keeps-continue r f kf s' (km.at s holds);
  }

-- One branch is taken.
pub if-leads {ℓ κ μ} :
    {S : Type ℓ} {A : Type κ} (Q : S → Type μ) (b : Bool) (act other : Exec S A) (s : S)
    → (b ≡ true → Q (act s).1)
    → (b ≡ false → Q (other s).1)
    → Q ((if b then act else other) s).1
if-leads Q true act other s taken left = taken refl
if-leads Q false act other s taken left = left refl

-- From `P` by way of `R`, where `R` implies `Q`, so that a raise does no harm.
module _ {ℓ κ ν μ} {S : Type ℓ} {A : Type κ} {B : Type ν} {R Q : S → Type μ} where
  continue-leads :
      (r : Result A) (f : A → Exec S B)
      → ((a : A) (s : S) → R s → Q (f a s).1)
      → ((s : S) → R s → Q s)
      → (s : S) → R s
      → Q (continue r f s).1
  continue-leads (ok a) f leads weaker s holds = leads a s holds
  continue-leads (err x) f leads weaker s holds = weaker s holds

  pub bind-leads :
      (act : Exec S A) (f : A → Exec S B)
      → ((a : A) (s : S) → R s → Q (f a s).1)
      → ((s : S) → R s → Q s)
      → (s : S) → R (act s).1
      → Q ((act >>= f) s).1
  unfolding ◌>>=◌
  bind-leads act f leads weaker s holds =
      let (r, s') = act s in continue-leads r f leads weaker s' holds

-- What follows an action that returns.
module _ {ℓ κ ν} {S : Type ℓ} {A : Type κ} {B : Type ν} where
  pub bind-ok :
      (act : Exec S A) (f : A → Exec S B) (s : S) (a : A)
      → (act s).0 ≡ ok a
      → (act >>= f) s ≡ f a (act s).1
  unfolding ◌>>=◌
  bind-ok act f s a e = ap (λ r. continue r f (act s).1) e

pub ruleset keeps_rules =
    (Keeps-pure, Keeps-raise, Keeps-gets, Keeps-of_option, Keeps-if, Keeps-bind)
