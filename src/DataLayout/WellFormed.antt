-- ===== src/DataLayout/WellFormed.antt =====
-- The tables of a DataLayout through ParseSpecifier and Reset of Src/DataLayout.cpp.
use dilithium.Base.{ℕ, suc, ◌≡◌, refl, arith, length}
use dilithium.Base.{Bool, true, false, not, List, [], ◌∷◌}
use dilithium.DataLayout.{
  Result, ok, error, ◌>>=◌, ◌>>◌, error_if, is_power_of_two, Failure, DataLayout,
}
use dilithium.DataLayout.{LayoutAlignElem, PointerAlignElem}
use dilithium.DataLayout.{unreachable, fault, out_of_fuel, Mangling}
use dilithium.DataLayout.{pointer_pref_not_power_of_2}
use dilithium.DataLayout.Words.{is_empty, split}
use dilithium.DataLayout.Specifier.{bytes_of, pointer_pref}
use dilithium.DataLayout.Outcomes.{Ensures, Ensures-bind, Ensures-ok}
use dilithium.DataLayout.Splits.{IsSplit, Is32Bit, split-Ensures, bytes_of-Ensures}
use dilithium.DataLayout.Tables.{IsTable, IsPointerTable}

-- The two tables are well-formed.
pub record IsWellFormed (dl : DataLayout) : Type 0 where
  pub table : IsTable dl.alignments
  pub pointer_table : IsPointerTable dl.pointers

unfoldable pub IsPower : ℕ → Type 0
IsPower v = is_power_of_two v ≡ true

-- A check, and what comes after it where it does not throw.
pub after_check {ℓ} :
    {A : Type ℓ} (P : A → Type 0) (b : Bool) (e : Failure) (r : Result A)
    → (b ≡ false → Ensures P r)
    → Ensures P (error_if b e >> r)
unfolding Ensures
after_check P true e r h = tt
after_check P false e r h = h refl

-- Split and what comes after it, of a text that is not empty.
pub after_split {ℓ} :
    {A : Type ℓ} (P : A → Type 0) (separator : ℕ) (s : List ℕ) (f : List ℕ × List ℕ → Result A)
    → is_empty s ≡ false
    → ((t : List ℕ × List ℕ) → IsSplit (length s) t → Ensures P (f t))
    → Ensures P (split separator s >>= f)
unfolding Ensures
after_split P separator [] f h k = absurd (ground (arith, h))
after_split P separator (c ∷ cs) f h k =
    Ensures-bind (IsSplit (suc (length cs))) P (split separator (c ∷ cs)) f
      (split-Ensures separator c cs) k

pub after_number {ℓ} :
    {A : Type ℓ} (P : A → Type 0) (tok : List ℕ) (f : ℕ → Result A)
    → ((v : ℕ) → Ensures P (f v))
    → Ensures P (bytes_of tok >>= f)
unfolding Ensures
after_number P tok f k = Ensures-bind Is32Bit P (bytes_of tok) f (bytes_of-Ensures tok) (λ v h. k v)

pub IsPower-of_not : (v : ℕ) → not (is_power_of_two v) ≡ false → IsPower v
unfolding IsPower
IsPower-of_not v h = ground (arith, h)

pub pointer_pref-Ensures :
    (abi : ℕ) (rest : List ℕ) → IsPower abi → Ensures IsPower (pointer_pref abi rest)
unfolding pointer_pref
pointer_pref-Ensures abi [] h = Ensures-ok IsPower abi h
pointer_pref-Ensures abi (c ∷ cs) h = after_split IsPower 58 (c ∷ cs) _ refl (λ t s.
    after_number IsPower t.0 _ (λ v.
      after_check IsPower (not (is_power_of_two v)) pointer_pref_not_power_of_2 _
        (λ power. Ensures-ok IsPower v (IsPower-of_not v power))))

pub with_pointers :
    (dl : DataLayout) (pointers : List PointerAlignElem)
    → IsWellFormed dl
    → IsPointerTable pointers
    → IsWellFormed (record dl { pointers = pointers })
with_pointers dl pointers ok_dl table = record { table = ok_dl.table; pointer_table = table }

pub with_mangling :
    (dl : DataLayout) (mode : Mangling)
    → IsWellFormed dl
    → IsWellFormed (record dl { mangling_mode = mode })
with_mangling dl mode ok_dl = record { table = ok_dl.table; pointer_table = ok_dl.pointer_table }

-- Any value at all.
abbrev pub IsAny {ℓ} : {A : Type ℓ} → A → Type 0
IsAny a = Unit {0}

pub Ensures-IsAny {ℓ} : {A : Type ℓ} (P : A → Type 0) (r : Result A) → Ensures P r → Ensures IsAny r
unfolding Ensures
Ensures-IsAny P (ok a) h = tt
Ensures-IsAny P (error e) h = tt
Ensures-IsAny P unreachable h = tt
Ensures-IsAny P fault h = h
Ensures-IsAny P out_of_fuel h = h

pub with_alignments :
    (dl : DataLayout) (alignments : List LayoutAlignElem)
    → IsWellFormed dl
    → IsTable alignments
    → IsWellFormed (record dl { alignments = alignments })
with_alignments dl alignments ok_dl table = record {
  table = table;
  pointer_table = ok_dl.pointer_table;
}
