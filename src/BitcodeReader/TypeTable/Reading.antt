-- ===== src/BitcodeReader/TypeTable/Reading.antt =====
-- The types that a type table of Src/BitcodeReader.cpp gives, once it is read without an error.
use dilithium.Base.{
  ℕ, zero, suc, ◌+◌, ◌^◌, ◌≤◌, ◌<◌, ◌⊎◌, inl, inr, ◌≡◌, ◌≢◌, refl, sym, ap, ◌∙◌, arith, Bool, some,
  List, [], ◌∷◌, ◌++◌, length, All, map, subst,
}
use mathlib.Core.List.{append-nil, append_assoc}
use dilithium.Types.{Ty, Types, FunctionTypes}
use dilithium.Types.Interned.{AreKeyed}
use dilithium.BitcodeReader.TypeTable.Parse.{type_record, add_type_record}
use dilithium.BitcodeReader.TypeTable.{
  Parsed, parsed, corrupted, faulty, struct_name_code, ◌>>=◌, TypeTable, Switched, continued,
  has_read, enter_type, start_table, end_types, type_code, num_entry_code, invalid_type_table,
  only_named_structs_can_be_forward_referenced,
}
use dilithium.BitcodeReader.TypeTable.Gives.{
  Gives, Gives-bind, Gives-parsed, Gives-corrupted, of_parsed, Gives-weaken, Gives-self,
}
use dilithium.BitcodeReader.TypeTable.Denotes.{
  Record, Denotes, DenoteAll, filled, table_of, add_type_records, parse_type_records, no_records,
  name_record,
}
use dilithium.BitcodeReader.TypeTable.Denotes
use dilithium.BitcodeReader.TypeTable.Entering.{
  enter_type-full, enter_type-free, enter_type-wrapped, end_types-full,
}
use dilithium.BitcodeReader.TypeTable.Sound.{IsFrom, Leads, type_record-Gives}
use dilithium.BitcodeReader.TypeTable.Lookups.{resize-empty, length-snoc}

abbrev pub IsTypeRecord : Record → Type 0
IsTypeRecord (code, ops) = type_code code ≢ num_entry_code

last_or_before : (n : ℕ) → n ≤ 2 ^ 32 → (n ≡ 2 ^ 32) ⊎ (n < 2 ^ 32)
last_or_before n h = omega arith

bind_assoc :
    {A B C : Type 0} (m : Parsed A) (f : A → Parsed B) (g : B → Parsed C)
    → ((m >>= f) >>= g) ≡ (m >>= λ a. f a >>= g)
bind_assoc (parsed a) f g = refl
bind_assoc (corrupted e) f g = refl
bind_assoc (faulty e) f g = refl

module _ (hash : Ty → Types → Bool → ℕ) where
  -- The table after records that follow the types `ts`.
  abbrev Reads : List Ty → ℕ → List Record → TypeTable → Type 0
  Reads ts k rs table =
      (us : List Ty) × ((k' : ℕ) × ((name : List ℕ) × ((fs : FunctionTypes) × DenoteAll
              (IsFrom hash) ts rs us
            × (k ≡ length us + k')
            × (table ≡ table_of (ts ++ us) k' name fs))))

  module _ (code : ℕ) (ops : List ℕ) (rs : List Record) (ts : List Ty) (k : ℕ) (name : List ℕ)
      (fs : FunctionTypes) (keyed : AreKeyed hash fs) (counted : length ts ≤ 2 ^ 32) where
    -- What the records behind lead to.
    abbrev pub Continues : Type 0
    Continues =
        (ts' : List Ty) (k' : ℕ) (name' : List ℕ) (fs' : FunctionTypes)
        → AreKeyed hash fs'
        → length ts' ≤ 2 ^ 32
        → Gives (Reads ts' k' rs) (add_type_records hash rs (table_of ts' k' name' fs'))

    -- After the name of a struct, and after a type.
    named :
        (table : TypeTable)
        → Reads ts k rs table
        → type_code code ≡ struct_name_code
        → Reads ts k ((code, ops) ∷ rs) table
    named table (us, (k', (n, (fs', d, len, same)))) c =
        (us, (k', (n, (fs', name_record c d, len, same))))

    typed :
        (t : Ty) (k1 : ℕ) (table : TypeTable)
        → Denotes (IsFrom hash) ts (type_code code) ops t
        → k ≡ suc k1
        → Reads (ts ++ (t ∷ [])) k1 rs table
        → Reads ts k ((code, ops) ∷ rs) table
    typed t k1 table d e (us, (k', (n, (fs', ds, len, same)))) = (
      t ∷ us,
      (
        k',
        (
          n,
          (
            fs',
            Denotes.type_record d ds,
            omega (arith, len, e),
            same ∙ ap (λ z. table_of z k' n fs') (append_assoc ts (t ∷ []) us),
          ),
        ),
      ),
    )

    entered :
        Continues
        → (k1 : ℕ) (t : Ty) (fs' : FunctionTypes) → k ≡ k1
        → Denotes (IsFrom hash) ts (type_code code) ops t
        → AreKeyed hash fs'
        → Gives (Reads ts k ((code, ops) ∷ rs)) (
            enter_type (has_read t fs') (table_of ts k1 name fs) >>= λ u.
            add_type_records hash rs u)
    entered rest zero t fs' e d kept = elim (last_or_before (length ts) counted) [
      | inl last ↦ rw (enter_type-wrapped ts zero name fs fs' t last) (
          Gives-corrupted (Reads ts k ((code, ops) ∷ rs))
            only_named_structs_can_be_forward_referenced)
      | inr before ↦
          rw (enter_type-full ts name fs fs' t before)
            (Gives-corrupted (Reads ts k ((code, ops) ∷ rs)) invalid_type_table)
    ]
    entered rest (suc k1) t fs' e d kept = elim (last_or_before (length ts) counted) [
      | inl last ↦ rw (enter_type-wrapped ts (suc k1) name fs fs' t last) (
          Gives-corrupted (Reads ts k ((code, ops) ∷ rs))
            only_named_structs_can_be_forward_referenced)
      | inr before ↦ rw (enter_type-free ts k1 name fs fs' t before) (
          Gives-weaken (Reads (ts ++ (t ∷ [])) k1 rs) (Reads ts k ((code, ops) ∷ rs))
            (λ table. typed t k1 table d e)
            (add_type_records hash rs (table_of (ts ++ (t ∷ [])) k1 name fs'))
            (rest (ts ++ (t ∷ [])) k1 name fs' kept (omega (arith, length-snoc ts t))))
    ]

    pub switched :
        Continues
        → (s : Switched) → Leads hash ts k name fs (type_code code) ops s
        → Gives
            (Reads ts k ((code, ops) ∷ rs))
            (enter_type s (table_of ts k name fs) >>= λ t. add_type_records hash rs t)
    unfolding enter_type
    switched rest (continued table) (c, (name', same)) =
        subst (λ z. Gives (Reads ts k ((code, ops) ∷ rs)) (add_type_records hash rs z)) (sym same)
          (Gives-weaken (Reads ts k rs) (Reads ts k ((code, ops) ∷ rs)) (λ z r. named z r c)
            (add_type_records hash rs (table_of ts k name' fs)) (rest ts k name' fs keyed counted))
    switched rest (has_read t fs') (d, kept) = entered rest k t fs' refl d kept

  add_type_records-Gives :
      (rs : List Record) (ts : List Ty) (k : ℕ) (name : List ℕ) (fs : FunctionTypes)
      → All IsTypeRecord rs
      → AreKeyed hash fs
      → length ts ≤ 2 ^ 32
      → Gives (Reads ts k rs) (add_type_records hash rs (table_of ts k name fs))
  unfolding add_type_records add_type_record
  add_type_records-Gives [] ts k name fs types keyed counted =
      Gives-parsed (Reads ts k []) (table_of ts k name fs) (
        [],
        (
          k,
          (
            name,
            (fs, no_records, omega arith, ap (λ z. table_of z k name fs) (sym (append-nil ts))),
          ),
        ),
      )
  add_type_records-Gives ((code, ops) ∷ rs) ts k name fs types keyed counted =
      subst (Gives (Reads ts k ((code, ops) ∷ rs)))
        (sym (
          bind_assoc (type_record hash (type_code code) ops (table_of ts k name fs))
            (λ s. enter_type s (table_of ts k name fs)) (add_type_records hash rs)))
        (Gives-bind (Leads hash ts k name fs (type_code code) ops) (Reads ts k ((code, ops) ∷ rs))
          (type_record hash (type_code code) ops (table_of ts k name fs)) _
          (type_record-Gives hash ts k name fs (type_code code) ops keyed types.0)
          (switched code ops rs ts k name fs keyed counted
            λ ts' k' name' fs'. add_type_records-Gives rs ts' k' name' fs' types.1))

  -- NUMENTRY makes room for the types.
  pub after_first :
      (code n : ℕ) (ops : List ℕ) (rs : List Record) (fs : FunctionTypes)
      → type_code code ≡ num_entry_code
      → parse_type_records hash ((code, n ∷ ops) ∷ rs) (start_table [] fs)
        ≡ (add_type_records hash rs (table_of [] n [] fs) >>= end_types)
  unfolding parse_type_records add_type_records add_type_record type_record enter_type
  after_first code n ops rs fs first = rw (parse_type_records, first, resize-empty n)

  finished :
      (rs : List Record) (us : List Ty) (k : ℕ) (t z : TypeTable) (name : List ℕ)
      (fs : FunctionTypes) (n : ℕ)
      → DenoteAll (IsFrom hash) [] rs us
      → n ≡ length us + k
      → t ≡ table_of us k name fs
      → end_types t ≡ parsed z
      → (ts : List Ty) × DenoteAll (IsFrom hash) [] rs ts
        × (length ts ≡ n)
        × (z.type_list ≡ map some ts)
  unfolding filled
  finished rs us k t z name fs n d len same e =
      let (no_more, is) =
        end_types-full us k name fs z (subst (λ w. end_types w ≡ parsed z) same e) in
      (
        us,
        d,
        omega (arith, len, no_more),
        ap (λ w. w.type_list) is ∙ ap (filled us) no_more ∙ append-nil (map some us),
      )

  -- Of a type table whose first record gives the number of its types, and no other does, the reader
  -- gets, unless it fails, as many types as this record says, none of them missing: the types that
  -- the records denote one after another by the rules, each record by the types before it only,
  -- where a function type is up to the hash of its parts the one asked for.
  pub parse_type_records-Denote :
      (code n : ℕ) (ops : List ℕ) (rs : List Record) (fs : FunctionTypes) (table : TypeTable)
      → type_code code ≡ num_entry_code
      → All IsTypeRecord rs
      → AreKeyed hash fs
      → parse_type_records hash ((code, n ∷ ops) ∷ rs) (start_table [] fs) ≡ parsed table
      → (us : List Ty) × DenoteAll (IsFrom hash) [] rs us
        × (length us ≡ n)
        × (table.type_list ≡ map some us)
  parse_type_records-Denote code n ops rs fs table first types keyed e =
      of_parsed Whole (add_type_records hash rs (table_of [] n [] fs) >>= end_types) table
        (Gives-bind (Reads [] n rs) Whole (add_type_records hash rs (table_of [] n [] fs)) end_types
          (add_type_records-Gives rs [] n [] fs types keyed (omega arith))
          λ t (us, (k, (name, (fs', d, len, same)))).
            Gives-weaken (λ z. end_types t ≡ parsed z) Whole
              (λ z f. finished rs us k t z name fs' n d len same f) (end_types t)
              (Gives-self (end_types t)))
        (sym (after_first code n ops rs fs first) ∙ e)
    where
      Whole : TypeTable → Type 0
      Whole z =
          (us : List Ty) × DenoteAll (IsFrom hash) [] rs us
          × (length us ≡ n)
          × (z.type_list ≡ map some us)
