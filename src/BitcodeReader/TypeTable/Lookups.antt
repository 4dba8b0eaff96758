-- ===== src/BitcodeReader/TypeTable/Lookups.antt =====
-- The list of types of the reader of Src/BitcodeReader.cpp while it is filled.
use dilithium.Base.{
  ℕ, zero, suc, ◌+◌, ◌%◌, ◌^◌, ◌≡◌, refl, ap, arith, Option, none, some, List, [], ◌∷◌, ◌++◌,
  length, get_elem?, set,
}
use native.Mathlib.Numerals.{unary_clauses}
use dilithium.Types.{Ty}
use dilithium.BitcodeReader.TypeTable.{parsed, type_by_id, resize}
use dilithium.BitcodeReader.TypeTable.Denotes.{filled}
use dilithium.BitcodeReader.TypeTable.Gives.{Gives}

pub length-filled : (ts : List Ty) (k : ℕ) → length (filled ts k) ≡ length ts + k
unfolding filled
length-filled [] zero = refl
length-filled [] (suc k) = omega (arith, length-filled [] k)
length-filled (t ∷ ts) k = omega (arith, length-filled ts k)

-- An entry that is read is its type.
pub get_elem?-filled :
    (ts : List Ty) (k i : ℕ) (t : Ty)
    → get_elem? ts i ≡ some t
    → get_elem? (filled ts k) i ≡ some (some t)
unfolding filled
get_elem?-filled [] k i t e = absurd (ground (arith, e))
get_elem?-filled (u ∷ ts) k zero t e = ap some e
get_elem?-filled (u ∷ ts) k (suc i) t e = get_elem?-filled ts k i t e

pub filled-get_elem? :
    (ts : List Ty) (k i : ℕ) (t : Ty)
    → get_elem? (filled ts k) i ≡ some (some t)
    → get_elem? ts i ≡ some t
unfolding filled
filled-get_elem? [] zero i t e = absurd (ground (arith, e))
filled-get_elem? [] (suc k) zero t e = absurd (ground (arith, e))
filled-get_elem? [] (suc k) (suc i) t e = filled-get_elem? [] k i t e
filled-get_elem? (u ∷ ts) k zero t e = ground (arith, e)
filled-get_elem? (u ∷ ts) k (suc i) t e = filled-get_elem? ts k i t e

-- The next entry is free, and is taken by the next type.
pub get_elem?-free : (ts : List Ty) (k : ℕ) → get_elem? (filled ts (suc k)) (length ts) ≡ some none
unfolding filled
get_elem?-free [] k = refl
get_elem?-free (t ∷ ts) k = get_elem?-free ts k

pub set-free :
    (ts : List Ty) (k : ℕ) (t : Ty)
    → set (filled ts (suc k)) (length ts) (some t) ≡ filled (ts ++ (t ∷ [])) k
unfolding filled
set-free [] k t = refl
set-free (u ∷ ts) k t = ap (λ z. some u ∷ z) (set-free ts k t)

pub length-snoc : (ts : List Ty) (t : Ty) → length (ts ++ (t ∷ [])) ≡ suc (length ts)
length-snoc [] t = refl
length-snoc (u ∷ ts) t = ap suc (length-snoc ts t)

-- TypeByID gives a type that was read, if it gives one.
pub type_by_id-Gives :
    (ts : List Ty) (k id : ℕ)
    → Gives
        (λ found. (t : Ty) → found ≡ some t → get_elem? ts (id % 2 ^ 32) ≡ some t)
        (type_by_id (filled ts k) id)
unfolding type_by_id Gives
type_by_id-Gives ts k id = go (get_elem? (filled ts k) (id % 2 ^ 32)) refl
  where
    go :
        (found : Option (Option Ty))
        → get_elem? (filled ts k) (id % 2 ^ 32) ≡ found
        → Gives
            (λ found. (t : Ty) → found ≡ some t → get_elem? ts (id % 2 ^ 32) ≡ some t)
            (type_by_id (filled ts k) id)
    go none e = rw (type_by_id, e) (λ t h. absurd (ground (arith, h)))
    go (some none) e = rw (type_by_id, e) tt
    go (some (some t)) e =
        rw (type_by_id, e) (λ u h. filled-get_elem? ts k (id % 2 ^ 32) u (rw e (ap some h)))

pub type_by_id-some :
    (ts : List Ty) (k id : ℕ) (t : Ty)
    → get_elem? ts (id % 2 ^ 32) ≡ some t
    → type_by_id (filled ts k) id ≡ parsed (some t)
unfolding type_by_id
type_by_id-some ts k id t e = rw (type_by_id, get_elem?-filled ts k (id % 2 ^ 32) t e)

pub resize-empty : (n : ℕ) → resize n [] ≡ filled [] n
unfolding resize filled
resize-empty zero = refl
resize-empty (suc n) = simp unary_clauses
