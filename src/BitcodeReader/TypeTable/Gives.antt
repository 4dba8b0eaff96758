-- ===== src/BitcodeReader/TypeTable/Gives.antt =====
-- What the results of the methods of Src/BitcodeReader.cpp ensure.
use dilithium.Base.{◌≡◌, refl, subst, Bool, true, false}
use dilithium.Cursor.State.{Fault, Outcome, ok, fail}
use dilithium.BitcodeReader.TypeTable.{
  Parsed, parsed, corrupted, faulty, ◌>>=◌, ◌>>◌, Message, corrupted_if, from_outcome,
}

-- A value that is returned has `P`.
unfoldable pub Gives {ℓ} : {A : Type ℓ} → (A → Type 0) → Parsed A → Type 0
Gives P (parsed a) = P a
Gives P (corrupted e) = Unit {0}
Gives P (faulty e) = Unit {0}

module _ {ℓ κ} {A : Type ℓ} {B : Type κ} (P : A → Type 0) (Q : B → Type 0) where
  pub Gives-bind :
      (m : Parsed A) (f : A → Parsed B)
      → Gives P m
      → ((a : A) → P a → Gives Q (f a))
      → Gives Q (m >>= f)
  unfolding Gives
  Gives-bind (parsed a) f h k = k a h
  Gives-bind (corrupted e) f h k = tt
  Gives-bind (faulty e) f h k = tt

module _ {A : Type 0} where
  pub Gives-self : (m : Parsed A) → Gives (λ a. m ≡ parsed a) m
  unfolding Gives
  Gives-self (parsed a) = refl
  Gives-self (corrupted e) = tt
  Gives-self (faulty e) = tt

  pub Gives-any : (m : Parsed A) → Gives (λ a. Unit {0}) m
  unfolding Gives
  Gives-any (parsed a) = tt
  Gives-any (corrupted e) = tt
  Gives-any (faulty e) = tt

  pub Gives-outcome : (m : Outcome A) → Gives (λ a. m ≡ ok a) (from_outcome m)
  unfolding Gives
  Gives-outcome (ok a) = refl
  Gives-outcome (fail e) = tt

  pub Gives-parsed : (P : A → Type 0) (a : A) → P a → Gives P (parsed a)
  unfolding Gives
  Gives-parsed P a h = h

  pub Gives-corrupted : (P : A → Type 0) (e : Message) → Gives P (corrupted e)
  unfolding Gives
  Gives-corrupted P e = tt

  pub Gives-faulty : (P : A → Type 0) (e : Fault) → Gives P (faulty e)
  unfolding Gives
  Gives-faulty P e = tt

  pub Gives-weaken :
      (P Q : A → Type 0) → ((a : A) → P a → Q a) → (m : Parsed A) → Gives P m → Gives Q m
  unfolding Gives
  Gives-weaken P Q k (parsed a) h = k a h
  Gives-weaken P Q k (corrupted e) h = tt
  Gives-weaken P Q k (faulty e) h = tt

  pub of_parsed : (P : A → Type 0) (m : Parsed A) (a : A) → Gives P m → m ≡ parsed a → P a
  unfolding Gives
  of_parsed P m a h e = subst (Gives P) e h

pub Gives-corrupted_if : (b : Bool) (e : Message) → Gives (λ _. b ≡ false) (corrupted_if b e)
unfolding Gives
Gives-corrupted_if true e = tt
Gives-corrupted_if false e = refl

pub after_check :
    {B : Type 0} (Q : B → Type 0) (b : Bool) (e : Message) (m : Parsed B)
    → (b ≡ false → Gives Q m)
    → Gives Q (corrupted_if b e >> m)
after_check Q b e m k =
    Gives-bind (λ _. b ≡ false) Q (corrupted_if b e) (λ _. m) (Gives-corrupted_if b e) (λ _. k)

pub after_outcome :
    {A B : Type 0} (Q : B → Type 0) (m : Outcome A) (f : A → Parsed B)
    → ((a : A) → m ≡ ok a → Gives Q (f a))
    → Gives Q (from_outcome m >>= f)
after_outcome Q m f k = Gives-bind (λ a. m ≡ ok a) Q (from_outcome m) f (Gives-outcome m) k

-- What has no result gives anything.
pub after_any :
    {A B : Type 0} (Q : B → Type 0) (m : Parsed A) (f : A → Parsed B)
    → ((a : A) → Gives Q (f a))
    → Gives Q (m >>= f)
after_any Q m f k = Gives-bind (λ a. Unit {0}) Q m f (Gives-any m) (λ a _. k a)
