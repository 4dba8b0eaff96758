-- ===== src/BitcodeReader/Values/Linkage.antt =====
-- The codes of linkages in Src/BitcodeReader.cpp: the old ones that stand for a comdat as well.
use dilithium.Base.{ℕ, ◌<◌, ◌≡◌, refl, arith, inl, inr, ◌⊎◌, true, false}
use dilithium.BitcodeReader.Values.{
  LinkageType, link_once_any_linkage, link_once_odr_linkage, weak_any_linkage, weak_odr_linkage,
  switch, has_implicit_comdat, decoded_linkage,
}

abbrev MayBeComdat : LinkageType → Type 0
MayBeComdat link_once_any_linkage = Unit
MayBeComdat link_once_odr_linkage = Unit
MayBeComdat weak_any_linkage = Unit
MayBeComdat weak_odr_linkage = Unit
MayBeComdat _ = ⊥

has_implicit_comdat_lem :
    (v : ℕ) → has_implicit_comdat v ≡ true → (v ≡ 1) ⊎ ((v ≡ 4) ⊎ ((v ≡ 10) ⊎ (v ≡ 11)))
unfolding has_implicit_comdat switch
has_implicit_comdat_lem v h = ground (arith, h)

-- An old code for a comdat is read as one of the four linkages that may be merged, and these have a
-- code of their own, without a comdat.
pub decoded_linkage-has_implicit_comdat :
    (v : ℕ)
    → has_implicit_comdat v ≡ true
    → MayBeComdat (decoded_linkage v)
      × ((n : ℕ) × (15 < n)
          × (n < 20)
          × (has_implicit_comdat n ≡ false)
          × (decoded_linkage v ≡ decoded_linkage n))
unfolding has_implicit_comdat decoded_linkage switch
decoded_linkage-has_implicit_comdat v h = elim (has_implicit_comdat_lem v h) [
  | inl e ↦ rw e (tt, (16, omega arith, omega arith, refl, refl))
  | inr (inl e) ↦ rw e (tt, (18, omega arith, omega arith, refl, refl))
  | inr (inr (inl e)) ↦ rw e (tt, (17, omega arith, omega arith, refl, refl))
  | inr (inr (inr e)) ↦ rw e (tt, (19, omega arith, omega arith, refl, refl))
]
