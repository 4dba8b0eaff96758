-- ===== src/DataLayout/Outcomes.antt =====
-- What the results of Src/DataLayout.cpp ensure.
use dilithium.Base.{◌≡◌, refl, Bool, true, false}
use dilithium.DataLayout.{
  Result, ok, error, unreachable, fault, out_of_fuel, ◌>>=◌, Failure, error_if,
}

-- No assertion fails, the loops end, and a value that is returned has `P`.
unfoldable pub Ensures {ℓ} : {A : Type ℓ} → (A → Type 0) → Result A → Type 0
Ensures P (ok a) = P a
Ensures P (error e) = Unit {0}
Ensures P unreachable = Unit {0}
Ensures P fault = ⊥
Ensures P out_of_fuel = ⊥

module _ {ℓ κ} {A : Type ℓ} {B : Type κ} (P : A → Type 0) (Q : B → Type 0) where
  pub Ensures-bind :
      (m : Result A) (f : A → Result B)
      → Ensures P m
      → ((a : A) → P a → Ensures Q (f a))
      → Ensures Q (m >>= f)
  unfolding Ensures
  Ensures-bind (ok a) f h k = k a h
  Ensures-bind (error e) f h k = tt
  Ensures-bind unreachable f h k = tt
  Ensures-bind fault f h k = elim h [ ]
  Ensures-bind out_of_fuel f h k = elim h [ ]

pub Ensures-error_if : (b : Bool) (e : Failure) → Ensures (λ _. b ≡ false) (error_if b e)
unfolding Ensures
Ensures-error_if true e = tt
Ensures-error_if false e = refl

pub Ensures-ok {ℓ} : {A : Type ℓ} (P : A → Type 0) (a : A) → P a → Ensures P (ok a)
unfolding Ensures
Ensures-ok P a h = h
