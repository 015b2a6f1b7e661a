-- ===== src/Exec.antt =====
-- Methods that mutate an object and may raise. What was written before a raise stays written, so
-- the state comes back beside an exception too.
pub mod Keeps
use telnetlib.Prelude.{Bool, true, false, Option, none, some, if◌then◌else◌}

-- The exceptions that the modelled code raises; `no_return` is a call that ran out of fuel.
pub data Exc : Type 0 where
  value_error index_error key_error attribute_error assertion_error not_implemented : Exc
  struct_error unicode_error type_error no_return : Exc

pub data Result {ℓ} (A : Type ℓ) : Type ℓ where
  ok : A → Result A
  err : Exc → Result A

abbrev pub Exec {ℓ κ} : Type ℓ → Type κ → Type (ℓ ⊔ κ)
Exec S A = S → Result A × S

module _ {ℓ κ} {S : Type ℓ} {A : Type κ} where
  pub pure : A → Exec S A
  pure a s = (ok a, s)

  pub raise : Exc → Exec S A
  raise x s = (err x, s)

  -- reads a value of the object
  pub gets : (S → A) → Exec S A
  gets f s = (ok (f s), s)

  -- the value of a dict, or `KeyError`
  pub of_option : Exc → Option A → Exec S A
  of_option x none s = (err x, s)
  of_option x (some a) s = (ok a, s)

-- an assignment to the object's fields
pub modify {ℓ} : {S : Type ℓ} → (S → S) → Exec S (Unit {0})
modify f s = (ok tt, f s)

module _ {ℓ κ μ} {S : Type ℓ} {A : Type κ} {B : Type μ} where
  abbrev pub continue : Result A → (A → Exec S B) → Exec S B
  continue (ok a) f s = f a s
  continue (err x) f s = (err x, s)

  infixl 10 ◌>>=◌ ◌>>◌
  -- unfolding this unfolds the plain actions too
  unfoldable pub ◌>>=◌ : Exec S A → (A → Exec S B) → Exec S B
  unfolding pure raise gets of_option modify
  ◌>>=◌ m f s = let (r, s') = m s in continue r f s'

  abbrev pub ◌>>◌ : Exec S A → Exec S B → Exec S B
  m >> n = m >>= λ _. n

-- `if b: m`
abbrev pub when {ℓ} : {S : Type ℓ} → Bool → Exec S (Unit {0}) → Exec S (Unit {0})
when b m = if b then m else pure tt

-- `try: m finally: n`, where `n` only assigns
abbrev pub finally {ℓ κ} : {S : Type ℓ} {A : Type κ} → Exec S A → (S → S) → Exec S A
finally m f s = let (r, s') = m s in (r, f s')
