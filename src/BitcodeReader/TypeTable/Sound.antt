-- ===== src/BitcodeReader/TypeTable/Sound.antt =====
-- What a type table of Src/BitcodeReader.cpp that is read without an error holds.
use dilithium.Base.{
  ℕ, ◌%◌, ◌^◌, ◌≤◌, ◌≡◌, ◌≢◌, refl, sym, ap, ◌∙◌, arith, Bool, false, ltb, not, ◌==◌, Option, none,
  some, List, [], ◌∷◌, length, inl, inr, Bool-cases, get_elem?, subst,
}
use dilithium.Cursor.State.{unreachable, ok}
use dilithium.Types
use dilithium.Types.{Ty, Types, no_types, and_type, FunctionTypes}
use dilithium.Types.Interned.{AreKeyed, IsKeyed, function_get-IsKeyed}
use dilithium.BitcodeReader.TypeTable.Parse.{function_record, type_record}
use dilithium.BitcodeReader.TypeTable.{
  Parsed, parsed, corrupted, ◌>>=◌, TypeTable, TypeCode, type_by_id, argument_types, visited,
  num_types, or_invalid_type, Switched, continued, has_read, integer_record, pointer_record,
  address_space_operand, convert_to_string, invalid_type, element_types, struct_record,
  named_struct_record, array_record, vector_record, add_argument, invalid_function_argument_type,
  bit_width_out_of_range, invalid_record, invalid_type_table, invalid_vector_length,
}
use dilithium.BitcodeReader.TypeTable.{
  num_entry_code, void_code, float_code, double_code, label_code, opaque_code, integer_code,
  pointer_code, function_old_code, half_code, array_code, vector_code, x86_fp80_code, fp128_code,
  ppc_fp128_code, metadata_code, x86_mmx_code, struct_anon_code, struct_name_code,
  struct_named_code, function_code, unknown_code,
}
use dilithium.BitcodeReader.TypeTable.Gives.{
  Gives, Gives-bind, Gives-weaken, Gives-corrupted, Gives-faulty, after_check, after_any,
  Gives-outcome, Gives-parsed,
}
use dilithium.BitcodeReader.TypeTable.Denotes.{
  AreArguments, no_arguments, argument, Denotes, filled, table_of, a_void, a_half, a_float,
  a_double, a_label, a_metadata, an_integer, a_pointer, a_function, a_wrapped_function,
}
use dilithium.BitcodeReader.TypeTable.Visited.{visited-parameters, length-wrapped}
use dilithium.BitcodeReader.TypeTable.Lookups.{type_by_id-Gives}

or_invalid_type-Gives : (found : Option Ty) → Gives (λ t. found ≡ some t) (or_invalid_type found)
unfolding Gives
or_invalid_type-Gives none = tt
or_invalid_type-Gives (some t) = refl

Gives-named :
    (Q : Switched → Type 0) (name : Option (List ℕ)) (table : TypeTable)
    → ((name' : List ℕ) → Q (continued (record table { type_name = name' })))
    → Gives Q (elim name [
      | none ↦ corrupted invalid_record
      | some name' ↦ parsed (continued (record table { type_name = name' }))
    ])
unfolding Gives
Gives-named Q none table k = tt
Gives-named Q (some name') table k = k name'

-- TypeByID and the check of its result.
after_type :
    {B : Type 0} (Q : B → Type 0) (ts : List Ty) (k id : ℕ) (f : Ty → Parsed B)
    → ((t : Ty) → get_elem? ts (id % 2 ^ 32) ≡ some t → Gives Q (f t))
    → Gives Q (type_by_id (filled ts k) id >>= λ found. or_invalid_type found >>= f)
after_type Q ts k id f next =
    Gives-bind (λ found. (t : Ty) → found ≡ some t → get_elem? ts (id % 2 ^ 32) ≡ some t) Q
      (type_by_id (filled ts k) id) _ (type_by_id-Gives ts k id)
      λ found at.
        Gives-bind (λ t. found ≡ some t) Q (or_invalid_type found) f (or_invalid_type-Gives found)
          λ t e. next t (at t e)

-- The arguments, where there are as many as operands.
abbrev ArgumentsOf : List Ty → List ℕ → Types → Type 0
ArgumentsOf ts ps us =
    (num_types us ≤ length ps) × (length ps ≤ num_types us → AreArguments ts ps us)

add_argument-Gives :
    (ts : List Ty) (p : ℕ) (ps : List ℕ) (found : Option Ty) (rest : Parsed Types)
    → ((t : Ty) → found ≡ some t → get_elem? ts (p % 2 ^ 32) ≡ some t)
    → Gives (ArgumentsOf ts ps) rest
    → Gives (ArgumentsOf ts (p ∷ ps)) (add_argument found rest)
unfolding add_argument
add_argument-Gives ts p ps none rest at h =
    Gives-parsed (ArgumentsOf ts (p ∷ ps)) no_types (omega arith, λ e. absurd (omega arith))
add_argument-Gives ts p ps (some t) rest at h = elim (Bool-cases (Types.is_valid_argument_type t)) [
  | inl valid ↦
      rw (valid, add_argument)
        (Gives-bind (ArgumentsOf ts ps) (ArgumentsOf ts (p ∷ ps)) rest _ h λ us of.
          Gives-parsed (ArgumentsOf ts (p ∷ ps)) (and_type t us)
            (omega (arith, of.0), λ e. argument (at t refl) valid (of.1 (omega (arith, e)))))
  | inr other ↦
      rw (other, add_argument)
        (Gives-corrupted (ArgumentsOf ts (p ∷ ps)) invalid_function_argument_type)
]

argument_types-Gives :
    (ts : List Ty) (k : ℕ) (ps : List ℕ)
    → Gives (ArgumentsOf ts ps) (argument_types (filled ts k) ps)
unfolding argument_types
argument_types-Gives ts k [] =
    Gives-parsed (ArgumentsOf ts []) no_types (omega arith, λ _. no_arguments)
argument_types-Gives ts k (p ∷ ps) =
    Gives-bind (λ found. (t : Ty) → found ≡ some t → get_elem? ts (p % 2 ^ 32) ≡ some t)
      (ArgumentsOf ts (p ∷ ps)) (type_by_id (filled ts k) p) _ (type_by_id-Gives ts k p)
      λ found at.
        add_argument-Gives ts p ps found (argument_types (filled ts k) ps) at
          (argument_types-Gives ts k ps)

integer_get-ok :
    (n : ℕ) (t : Ty) → Types.integer_get n ≡ ok t → (t ≡ Types.integer_ty n) × (n ≢ 128)
unfolding Types.integer_get
integer_get-ok n t e = ground (arith, e)

pointer_get-ok : (u : Ty) (a : ℕ) (t : Ty) → Types.pointer_get u a ≡ ok t → t ≡ Types.pointer_ty u a
unfolding Types.pointer_get
pointer_get-ok u a t e = ground (arith, e)

-- The records whose types the context cannot make.
struct_record-Gives :
    (list : List (Option Ty)) (p : ℕ) (es : List ℕ) → Gives (λ t. ⊥) (struct_record list p es)
unfolding struct_record
struct_record-Gives list p es =
    after_any (λ t. ⊥) (element_types list (visited 1 (p ∷ es))) _
      λ us. after_check (λ t. ⊥) _ invalid_type _ λ _. Gives-faulty (λ t. ⊥) unreachable

named_struct_record-Gives : (table : TypeTable) → Gives (λ t. ⊥) (named_struct_record table)
unfolding named_struct_record
named_struct_record-Gives table =
    after_check (λ t. ⊥) _ invalid_type_table _ λ _. Gives-faulty (λ t. ⊥) unreachable

array_record-Gives : (list : List (Option Ty)) (e : ℕ) → Gives (λ t. ⊥) (array_record list e)
unfolding array_record
array_record-Gives list e =
    after_any (λ t. ⊥) (type_by_id list e) _
      λ found. after_any (λ t. ⊥) (or_invalid_type found) _ λ t. Gives-faulty (λ t. ⊥) unreachable

vector_record-Gives : (list : List (Option Ty)) (n e : ℕ) → Gives (λ t. ⊥) (vector_record list n e)
unfolding vector_record
vector_record-Gives list n e =
    after_check (λ t. ⊥) _ invalid_vector_length _
      λ _.
        after_any (λ t. ⊥) (type_by_id list e) _
          λ found.
            after_any (λ t. ⊥) (or_invalid_type found) _ λ t. Gives-faulty (λ t. ⊥) unreachable

module _ (hash : Ty → Types → Bool → ℕ) where
  abbrev pub IsFrom : Ty → Types → Bool → Ty → Type 0
  IsFrom r us v t = IsKeyed hash (hash r us v) t

  integer_record-Gives :
      (ts : List Ty) (n : ℕ) (ops : List ℕ)
      → Gives (Denotes IsFrom ts integer_code (n ∷ ops)) (integer_record n)
  unfolding integer_record
  integer_record-Gives ts n ops =
      after_check (Denotes IsFrom ts integer_code (n ∷ ops)) _ bit_width_out_of_range _ λ within.
        Gives-weaken _ (Denotes IsFrom ts integer_code (n ∷ ops))
          (λ t e.
            let (same, other) = integer_get-ok (n % 2 ^ 32) t e in
            let whole : n % 2 ^ 32 ≡ n = ground (arith, within) in
            let is : Types.integer_ty n ≡ t = sym (same ∙ ap Types.integer_ty whole) in
            subst (Denotes IsFrom ts integer_code (n ∷ ops)) is (
              an_integer (ground (arith, within)) (ground (arith, within))
                (λ z. other (whole ∙ z))))
          _ (Gives-outcome (Types.integer_get (n % 2 ^ 32)))

  pointer_record-Gives :
      (ts : List Ty) (k p : ℕ) (ops : List ℕ)
      → Gives (Denotes IsFrom ts pointer_code (p ∷ ops)) (pointer_record (filled ts k) p ops)
  unfolding pointer_record
  pointer_record-Gives ts k p ops =
      let Q : Ty → Type 0 = Denotes IsFrom ts pointer_code (p ∷ ops) in
      after_type Q ts k p _ λ t at. after_check Q _ invalid_type _ λ valid.
        Gives-weaken _ Q
          (λ u e.
            subst Q (sym (pointer_get-ok t (address_space_operand ops) u e))
              (a_pointer at (ground (arith, valid))))
          _ (Gives-outcome (Types.pointer_get t (address_space_operand ops)))

  -- A type and the function types that are kept after it.
  abbrev pub IsRead : List Ty → TypeCode → List ℕ → Ty × FunctionTypes → Type 0
  IsRead ts c ops (t, fs) = Denotes IsFrom ts c ops t × AreKeyed hash fs

  le_of_ltb : (a b : ℕ) → ltb a b ≡ false → b ≤ a
  le_of_ltb a b h = ground (arith, h)

  -- As many types as the record has operands behind the first two.
  function_type-Denotes :
      (ts : List Ty) (v r : ℕ) (ps : List ℕ) (t f : Ty) (us : Types)
      → get_elem? ts (r % 2 ^ 32) ≡ some t
      → ArgumentsOf ts (visited 2 (v ∷ r ∷ ps)) us
      → length ps ≤ num_types us
      → IsFrom t us (not (v == 0)) f
      → Denotes IsFrom ts function_code (v ∷ r ∷ ps) f
  function_type-Denotes ts v r ps t f us at of enough from = elim (visited-parameters v r ps) [
    | inl (short, same) ↦
        a_function at short
          (subst (λ zs. AreArguments ts zs us) same
            (of.1 (omega (arith, enough, ap (λ (zs : List ℕ). length zs) same))))
          from
    | inr (inl (one_more, same)) ↦
        a_wrapped_function at one_more
          (subst (λ zs. AreArguments ts zs us) same
            (of.1 (
              omega (
                arith,
                enough,
                length-wrapped v ps one_more,
                ap (λ (zs : List ℕ). length zs) same,
              ))))
          from
    | inr (inr few) ↦ absurd (omega (arith, few, enough, of.0))
  ]

  function_record-Gives :
      (ts : List Ty) (k : ℕ) (fs : FunctionTypes) (v r : ℕ) (ps : List ℕ)
      → AreKeyed hash fs
      → Gives (IsRead ts function_code (v ∷ r ∷ ps)) (function_record hash (filled ts k) fs v r ps)
  unfolding function_record
  function_record-Gives ts k fs v r ps keyed =
      let Q : Ty × FunctionTypes → Type 0 = IsRead ts function_code (v ∷ r ∷ ps) in
      let params = visited 2 (v ∷ r ∷ ps) in
      Gives-bind (ArgumentsOf ts params) Q (argument_types (filled ts k) params) _
        (argument_types-Gives ts k params)
        λ us of. after_type Q ts k r _ λ t at. after_check Q _ invalid_type _ λ enough.
          Gives-weaken _ Q
            (λ (f, fs') e.
              let (from, kept) = function_get-IsKeyed hash t us (not (v == 0)) fs fs' f keyed e in
              (
                function_type-Denotes ts v r ps t f us at of
                    (le_of_ltb (num_types us) (length ps) enough) from,
                kept,
              ))
            _ (Gives-outcome (Types.function_get hash t us (not (v == 0)) fs))

  -- What the switch on a record leads to, if it is no NUMENTRY.
  abbrev pub Leads : List Ty → ℕ → List ℕ → FunctionTypes → TypeCode → List ℕ → Switched → Type 0
  Leads ts k name fs c ops (continued table) =
      (c ≡ struct_name_code) × ((name' : List ℕ) × (table ≡ table_of ts k name' fs))
  Leads ts k name fs c ops (has_read t fs') = IsRead ts c ops (t, fs')

  pub type_record-Gives :
      (ts : List Ty) (k : ℕ) (name : List ℕ) (fs : FunctionTypes) (c : TypeCode) (ops : List ℕ)
      → AreKeyed hash fs
      → c ≢ num_entry_code
      → Gives (Leads ts k name fs c ops) (type_record hash c ops (table_of ts k name fs))
  unfolding type_record Gives
  type_record-Gives ts k name fs num_entry_code ops keyed other = absurd (other refl)
  type_record-Gives ts k name fs void_code ops keyed other = (a_void, keyed)
  type_record-Gives ts k name fs half_code ops keyed other = (a_half, keyed)
  type_record-Gives ts k name fs float_code ops keyed other = (a_float, keyed)
  type_record-Gives ts k name fs double_code ops keyed other = (a_double, keyed)
  type_record-Gives ts k name fs label_code ops keyed other = (a_label, keyed)
  type_record-Gives ts k name fs metadata_code ops keyed other = (a_metadata, keyed)
  type_record-Gives ts k name fs integer_code (n ∷ ops) keyed other =
      Gives-bind (Denotes IsFrom ts integer_code (n ∷ ops))
        (Leads ts k name fs integer_code (n ∷ ops)) (integer_record n) _
        (integer_record-Gives ts n ops) λ t d. (d, keyed)
  type_record-Gives ts k name fs pointer_code (p ∷ ops) keyed other =
      Gives-bind (Denotes IsFrom ts pointer_code (p ∷ ops))
        (Leads ts k name fs pointer_code (p ∷ ops)) (pointer_record (filled ts k) p ops) _
        (pointer_record-Gives ts k p ops) λ t d. (d, keyed)
  type_record-Gives ts k name fs function_code (v ∷ r ∷ ps) keyed other =
      Gives-bind (IsRead ts function_code (v ∷ r ∷ ps))
        (Leads ts k name fs function_code (v ∷ r ∷ ps))
        (function_record hash (filled ts k) fs v r ps) _
        (function_record-Gives ts k fs v r ps keyed) λ r d. d
  type_record-Gives ts k name fs struct_anon_code (p ∷ es) keyed other =
      Gives-bind (λ t. ⊥) (Leads ts k name fs struct_anon_code (p ∷ es))
        (struct_record (filled ts k) p es) _ (struct_record-Gives (filled ts k) p es)
        λ t never. elim never [ ]
  type_record-Gives ts k name fs struct_name_code ops keyed other =
      Gives-named (Leads ts k name fs struct_name_code ops) (convert_to_string ops 0 name)
        (table_of ts k name fs) λ name'. (refl, (name', refl))
  type_record-Gives ts k name fs struct_named_code (o ∷ ops) keyed other =
      Gives-bind (λ t. ⊥) (Leads ts k name fs struct_named_code (o ∷ ops))
        (named_struct_record (table_of ts k name fs)) _
        (named_struct_record-Gives (table_of ts k name fs)) λ t never. elim never [ ]
  type_record-Gives ts k name fs opaque_code (o ∷ []) keyed other =
      Gives-bind (λ t. ⊥) (Leads ts k name fs opaque_code (o ∷ []))
        (named_struct_record (table_of ts k name fs)) _
        (named_struct_record-Gives (table_of ts k name fs)) λ t never. elim never [ ]
  type_record-Gives ts k name fs array_code (n ∷ e ∷ ops) keyed other =
      Gives-bind (λ t. ⊥) (Leads ts k name fs array_code (n ∷ e ∷ ops))
        (array_record (filled ts k) e) _ (array_record-Gives (filled ts k) e)
        λ t never. elim never [ ]
  type_record-Gives ts k name fs vector_code (n ∷ e ∷ ops) keyed other =
      Gives-bind (λ t. ⊥) (Leads ts k name fs vector_code (n ∷ e ∷ ops))
        (vector_record (filled ts k) n e) _ (vector_record-Gives (filled ts k) n e)
        λ t never. elim never [ ]
  type_record-Gives ts k name fs integer_code [] keyed other = tt
  type_record-Gives ts k name fs pointer_code [] keyed other = tt
  type_record-Gives ts k name fs function_code [] keyed other = tt
  type_record-Gives ts k name fs function_code (v ∷ []) keyed other = tt
  type_record-Gives ts k name fs struct_anon_code [] keyed other = tt
  type_record-Gives ts k name fs struct_named_code [] keyed other = tt
  type_record-Gives ts k name fs opaque_code [] keyed other = tt
  type_record-Gives ts k name fs opaque_code (o ∷ p ∷ ops) keyed other = tt
  type_record-Gives ts k name fs array_code [] keyed other = tt
  type_record-Gives ts k name fs array_code (n ∷ []) keyed other = tt
  type_record-Gives ts k name fs vector_code [] keyed other = tt
  type_record-Gives ts k name fs vector_code (n ∷ []) keyed other = tt
  type_record-Gives ts k name fs x86_fp80_code ops keyed other = tt
  type_record-Gives ts k name fs fp128_code ops keyed other = tt
  type_record-Gives ts k name fs ppc_fp128_code ops keyed other = tt
  type_record-Gives ts k name fs x86_mmx_code ops keyed other = tt
  type_record-Gives ts k name fs unknown_code ops keyed other = tt
  type_record-Gives ts k name fs function_old_code [] keyed other = tt
  type_record-Gives ts k name fs function_old_code (a ∷ []) keyed other = tt
  type_record-Gives ts k name fs function_old_code (a ∷ b ∷ []) keyed other = tt
  type_record-Gives ts k name fs function_old_code (a ∷ b ∷ c ∷ ops) keyed other = tt
