-- ===== src/Common/Results.antt =====
-- A call that returns or throws: `E` holds the exceptions of a component.
use mathlib.Core.Path.{◌≡◌, refl}
use mathlib.Core.Bool.{Bool, true, false}
use mathlib.Core.Option.{Option, none, some}

pub data Result {ℓ} (E : Type 0) (A : Type ℓ) : Type ℓ where
  err : E → Result E A
  ok : A → Result E A

module _ {E : Type 0} where
  -- `if (test) throw thrown`.
  abbrev pub throw_if : Bool → E → Result E (Unit {0})
  throw_if false thrown = ok tt
  throw_if true thrown = err thrown

  -- `if (!row) throw thrown`.
  abbrev pub or_throw {ℓ} : {A : Type ℓ} → Option A → E → Result E A
  or_throw (some row) thrown = ok row
  or_throw none thrown = err thrown

  -- What follows a call runs only if the call returns.
  infixl 5 ◌>>=◌
  abbrev pub ◌>>=◌ {ℓ κ} : {A : Type ℓ} {B : Type κ} → Result E A → (A → Result E B) → Result E B
  err thrown >>= later = err thrown
  ok row >>= later = later row

  infixl 5 ◌>>◌
  abbrev pub ◌>>◌ {ℓ} : {B : Type ℓ} → Result E (Unit {0}) → Result E B → Result E B
  first >> later = first >>= λ _. later

  pub ok-injective {ℓ} : {A : Type ℓ} {a b : A} → ◌≡◌ {A = Result E A} (ok a) (ok b) → a ≡ b
  ok-injective same = cc

  -- Calls in a row that return all returned.
  pub >>=-eq-ok {ℓ κ} :
      {A : Type ℓ} {B : Type κ} (first : Result E A) (later : A → Result E B) {out : B}
      → (first >>= later) ≡ ok out
      → (row : A) × (first ≡ ok row) × (later row ≡ ok out)
  >>=-eq-ok (err thrown) later returned = cc
  >>=-eq-ok (ok row) later returned = (row, refl, returned)
