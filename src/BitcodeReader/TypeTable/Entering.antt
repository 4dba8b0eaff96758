-- ===== src/BitcodeReader/TypeTable/Entering.antt =====
-- How a type enters the list of types of Src/BitcodeReader.cpp.
use dilithium.Base.{
  ℕ, suc, ◌%◌, ◌^◌, ◌<◌, refl, ◌≡◌, ap, arith, false, Option, none, some, List, [], ◌∷◌, ◌++◌,
  length, set, leb, get_elem?, ◌∙◌,
}
use dilithium.Types.{Ty, FunctionTypes}
use dilithium.BitcodeReader.TypeTable.{
  parsed, corrupted, has_read, enter_type, end_types, invalid_type_table, TypeTable,
  only_named_structs_can_be_forward_referenced,
}
use dilithium.BitcodeReader.TypeTable.Denotes.{filled, table_of}
use dilithium.BitcodeReader.TypeTable.Lookups.{
  length-filled, get_elem?-free, get_elem?-filled, set-free, length-snoc,
}

pub enter_type-full :
    (ts : List Ty) (name : List ℕ) (fs fs' : FunctionTypes) (t : Ty)
    → length ts < 2 ^ 32
    → enter_type (has_read t fs') (table_of ts 0 name fs) ≡ corrupted invalid_type_table
unfolding enter_type
enter_type-full ts name fs fs' t short = ground (arith, length-filled ts 0, short)

-- After 2 ^ 32 types the next one is for the first entry again, which is no null pointer.
pub enter_type-wrapped :
    (ts : List Ty) (k : ℕ) (name : List ℕ) (fs fs' : FunctionTypes) (t : Ty)
    → length ts ≡ 2 ^ 32
    → enter_type (has_read t fs') (table_of ts k name fs)
      ≡ corrupted only_named_structs_can_be_forward_referenced
unfolding enter_type
enter_type-wrapped [] k name fs fs' t e = absurd (omega arith)
enter_type-wrapped (u ∷ ts) k name fs fs' t e =
    let back : suc (length ts) % 2 ^ 32 ≡ 0 = omega arith in
    let room : leb (length (filled (u ∷ ts) k)) 0 ≡ false =
      ground (arith, length-filled (u ∷ ts) k) in
    rw (enter_type, back, room, get_elem?-filled (u ∷ ts) k 0 u refl) refl

abbrev next_table : List (Option Ty) → ℕ → List ℕ → FunctionTypes → TypeTable
next_table list n name fs = record {
  type_list = list;
  num_records = n;
  type_name = name;
  function_types = fs;
}

same_table :
    (ts us : List (Option Ty)) (n m : ℕ) (name : List ℕ) (fs : FunctionTypes)
    → ts ≡ us
    → n ≡ m
    → next_table ts n name fs ≡ next_table us m name fs
same_table ts us n m name fs e f = rw (e, f)

pub enter_type-free :
    (ts : List Ty) (k : ℕ) (name : List ℕ) (fs fs' : FunctionTypes) (t : Ty)
    → length ts < 2 ^ 32
    → enter_type (has_read t fs') (table_of ts (suc k) name fs)
      ≡ parsed (table_of (ts ++ (t ∷ [])) k name fs')
unfolding enter_type
enter_type-free ts k name fs fs' t short =
    let count : length ts % 2 ^ 32 ≡ length ts = omega arith in
    let free : leb (length (filled ts (suc k))) (length ts % 2 ^ 32) ≡ false =
      ground (arith, length-filled ts (suc k), count) in
    let at : get_elem? (filled ts (suc k)) (length ts % 2 ^ 32) ≡ some none =
      ap (get_elem? (filled ts (suc k))) count ∙ get_elem?-free ts k in
    rw (enter_type, free, at)
      (ap parsed (
        same_table (set (filled ts (suc k)) (length ts % 2 ^ 32) (some t))
          (filled (ts ++ (t ∷ [])) k) (suc (length ts % 2 ^ 32) % 2 ^ 32)
          (length (ts ++ (t ∷ [])) % 2 ^ 32) name fs'
          (ap (λ z. set (filled ts (suc k)) z (some t)) count ∙ set-free ts k t)
          (omega (arith, length-snoc ts t))))

pub end_types-full :
    (ts : List Ty) (k : ℕ) (name : List ℕ) (fs : FunctionTypes) (table : TypeTable)
    → end_types (table_of ts k name fs) ≡ parsed table
    → (k ≡ 0) × (table ≡ table_of ts k name fs)
unfolding end_types
end_types-full ts k name fs table e = ground (arith, e, length-filled ts k)

pub end_types-done :
    (ts : List Ty) (name : List ℕ) (fs : FunctionTypes)
    → length ts < 2 ^ 32
    → end_types (table_of ts 0 name fs) ≡ parsed (table_of ts 0 name fs)
unfolding end_types
end_types-done ts name fs short = ground (arith, length-filled ts 0, short)
