-- ===== src/Base/Results.antt =====
-- `Result<A, E>`, and the chain that `?` makes of its steps.
use mathlib.Core.Path.{◌≡◌, refl}
use mathlib.Core.Logic.{◌⊎◌, inl, inr}
use mathlib.Core.Bool.{Bool, true, false}
use mathlib.Core.Option.{Option, none, some}

pub data Result (E A : Type 0) : Type 0 where
  err : E → Result E A
  ok : A → Result E A

module _ {E : Type 0} where
  pub Result-cases :
      {A : Type 0} (m : Result E A) → ((a : A) × (m ≡ ok a)) ⊎ ((e : E) × (m ≡ err e))
  Result-cases (ok a) = inl (a, refl)
  Result-cases (err e) = inr (e, refl)

  infixl 5 ◌>>=◌ ◌>>◌
  abbrev pub ◌>>=◌ : {A B : Type 0} → Result E A → (A → Result E B) → Result E B
  err failure >>= next = err failure
  ok value >>= next = next value

  -- `option.ok_or(e)`
  abbrev pub ok_or : {A : Type 0} → Option A → E → Result E A
  ok_or none e = err e
  ok_or (some a) e = ok a

  -- Inversion of a chain that succeeded.
  pub >>=-eq-ok :
      {A B : Type 0} (first : Result E A) (next : A → Result E B) {b : B}
      → (first >>= next) ≡ ok b
      → (a : A) × (first ≡ ok a) × (next a ≡ ok b)
  >>=-eq-ok (err failure) next h = cc
  >>=-eq-ok (ok value) next h = (value, refl, h)

  abbrev pub ◌>>◌ : {B : Type 0} → Result E (Unit {0}) → Result E B → Result E B
  first >> next = first >>= λ _. next

  -- `if test { return Err(e) }`
  abbrev pub fail_if : Bool → E → Result E (Unit {0})
  fail_if true e = err e
  fail_if false e = ok tt
