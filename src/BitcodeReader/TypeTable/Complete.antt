-- ===== src/BitcodeReader/TypeTable/Complete.antt =====
-- The reader of type tables of Src/BitcodeReader.cpp on records that denote types.
use dilithium.Base.{
  ℕ, suc, ◌+◌, ◌<◌, subst, ◌%◌, ◌^◌, ◌≤◌, ◌≡◌, ◌≢◌, refl, sym, ap, ◌∙◌, arith, Bool, true, false,
  not, ◌==◌, ltb, some, List, [], ◌∷◌, ◌++◌, length, get_elem?, All, map, All-get,
}
use mathlib.Core.List.{append-nil, append_assoc}
use dilithium.Types
use dilithium.Types.{Ty, Types, no_types, and_type, function_ty, FunctionTypes}
use dilithium.Types.Interned.{IsApart, function_get-exact}
use dilithium.BitcodeReader.TypeTable.Parse.{function_record, type_record, add_type_record}
use dilithium.BitcodeReader.TypeTable.{
  parsed, ◌>>=◌, TypeTable, TypeCode, add_argument, argument_types, num_types, has_read,
  integer_record, pointer_record, enter_type, end_types, type_code, address_space_operand,
  num_entry_code, start_table, struct_name_code, convert_to_string, visited,
}
use dilithium.BitcodeReader.TypeTable.Denotes.{
  Record, AreArguments, no_arguments, argument, Denotes, DenoteAll, filled, table_of,
  add_type_records, parse_type_records, a_void, a_half, a_float, a_double, a_label, a_metadata,
  an_integer, a_pointer, a_function, a_wrapped_function, no_records, name_record,
}
use dilithium.BitcodeReader.TypeTable.Denotes
use dilithium.BitcodeReader.TypeTable.Lookups.{type_by_id-some, length-snoc}
use dilithium.BitcodeReader.TypeTable.Visited.{visited-all, visited-wrapped, length-wrapped}
use dilithium.BitcodeReader.TypeTable.Entering.{enter_type-free, end_types-done}
use dilithium.BitcodeReader.TypeTable.Reading.{after_first}

-- A function type of the parts that are asked for, which the context can make.
abbrev pub Exactly : Ty → Types → Bool → Ty → Type 0
Exactly r us v t = (t ≡ function_ty v r us) × (Types.is_valid_return_type r ≡ true)

add_argument-parsed :
    (t : Ty) (us : Types)
    → Types.is_valid_argument_type t ≡ true
    → add_argument (some t) (parsed us) ≡ parsed (and_type t us)
unfolding add_argument
add_argument-parsed t us valid = rw (add_argument, valid) refl

not_less : (a b : ℕ) → b ≤ a → ltb a b ≡ false
not_less a b h = ground (arith, h)

-- A name is never refused.
convert_to_string-start :
    (ops result : List ℕ)
    → convert_to_string ops 0 result ≡ some (result ++ map (λ v. v % 2 ^ 8) (visited 0 ops))
unfolding convert_to_string
convert_to_string-start ops result =
    rw (convert_to_string, not_less (length ops) 0 (omega arith)) refl

argument_types-AreArguments :
    {ts : List Ty} {ps : List ℕ} {us : Types} (k : ℕ)
    → AreArguments ts ps us
    → argument_types (filled ts k) ps ≡ parsed us
unfolding argument_types add_argument
argument_types-AreArguments k no_arguments = refl
argument_types-AreArguments {ts} k (argument {p} {ps} {t} {us} at valid args) =
    ap (λ m. m >>= λ found. add_argument found (argument_types (filled ts k) ps))
      (type_by_id-some ts k p t at)
    ∙ ap (add_argument (some t)) (argument_types-AreArguments k args)
    ∙ add_argument-parsed t us valid

num_types-AreArguments :
    {ts : List Ty} {ps : List ℕ} {us : Types} → AreArguments ts ps us → num_types us ≡ length ps
num_types-AreArguments no_arguments = refl
num_types-AreArguments (argument at valid args) = ap suc (num_types-AreArguments args)

AreArguments-valid :
    {ts : List Ty} {ps : List ℕ} {us : Types}
    → AreArguments ts ps us
    → Types.are_valid_arguments us ≡ true
AreArguments-valid no_arguments = refl
AreArguments-valid (argument at valid args) = rw (valid, AreArguments-valid args)

integer_record-some :
    (n : ℕ)
    → 1 ≤ n
    → n ≤ Types.max_int_bits
    → n ≢ 128
    → integer_record n ≡ parsed (Types.integer_ty n)
unfolding integer_record Types.integer_get
integer_record-some n low high other = ground (arith, low, high, other)

pointer_record-some :
    (ts : List Ty) (k p : ℕ) (ops : List ℕ) (t : Ty)
    → get_elem? ts (p % 2 ^ 32) ≡ some t
    → Types.is_valid_pointee t ≡ true
    → pointer_record (filled ts k) p ops ≡ parsed (Types.pointer_ty t (address_space_operand ops))
unfolding pointer_record Types.pointer_get
pointer_record-some ts k p ops t at valid = rw (type_by_id-some ts k p t at, valid) refl

module _ (hash : Ty → Types → Bool → ℕ) where
  -- Function types of one hash are one type.
  abbrev pub AreApart : Ty → Ty → Type 0
  AreApart (function_ty v r ps) (function_ty v' r' ps') =
      hash r ps v ≡ hash r' ps' v' → function_ty v' r' ps' ≡ function_ty v r ps
  AreApart _ _ = Unit {0}

  abbrev pub IsSeparate : List Ty → Type 0
  IsSeparate all = All (λ t. All (AreApart t) all) all

  -- A function type of the list that the context keeps.
  abbrev IsKept : List Ty → ℕ × Ty → Type 0
  IsKept all (h, t) =
      (v : Bool) × ((r : Ty) × ((ps : Types) × ((i : ℕ) × (t ≡ function_ty v r ps)
            × (hash r ps v ≡ h)
            × (get_elem? all i ≡ some (function_ty v r ps)))))

  IsApart-IsKept :
      (all : List Ty) (v : Bool) (r : Ty) (ps : Types) (i : ℕ) (fs : FunctionTypes)
      → IsSeparate all
      → get_elem? all i ≡ some (function_ty v r ps)
      → All (IsKept all) fs
      → IsApart hash r ps v fs
  IsApart-IsKept all v r ps i [] apart at kept = tt
  IsApart-IsKept all v r ps i ((h, t) ∷ fs) apart at
        ((v', (r', (ps', (j, is, key, there)))), kept) =
      (
        (λ e.
            is
            ∙ All-get (AreApart (function_ty v r ps)) all j (function_ty v' r' ps')
                (All-get (λ t. All (AreApart t) all) all i (function_ty v r ps) apart at) there
                (e ∙ sym key)),
        IsApart-IsKept all v r ps i fs apart at kept,
      )

  function_record-some :
      (all ts : List Ty) (k : ℕ) (fs : FunctionTypes) (v r i : ℕ) (ps : List ℕ) (t : Ty)
      (us : Types)
      → get_elem? ts (r % 2 ^ 32) ≡ some t
      → AreArguments ts (visited 2 (v ∷ r ∷ ps)) us
      → length (visited 2 (v ∷ r ∷ ps)) ≡ length ps
      → Types.is_valid_return_type t ≡ true
      → IsSeparate all
      → get_elem? all i ≡ some (function_ty (not (v == 0)) t us)
      → All (IsKept all) fs
      → (fs' : FunctionTypes) × (function_record hash (filled ts k) fs v r ps
          ≡ parsed (function_ty (not (v == 0)) t us, fs'))
        × All (IsKept all) fs'
  unfolding function_record
  function_record-some all ts k fs v r i ps t us at args many ret apart there kept =
      let (fs', e, kept') =
        function_get-exact hash t us (not (v == 0)) fs (IsKept all)
          (IsApart-IsKept all (not (v == 0)) t us i fs apart there kept) ret
          (AreArguments-valid args) kept (_, (_, (_, (i, refl, refl, there)))) in
      let enough : ltb (num_types us) (length ps) ≡ false =
        not_less (num_types us) (length ps) (omega (arith, num_types-AreArguments args, many)) in
      (
        fs',
        rw (argument_types-AreArguments k args, type_by_id-some ts k r t at, enough, e) refl,
        kept',
      )

  type_record-Denotes :
      {ts : List Ty} {c : TypeCode} {ops : List ℕ} {t : Ty} (all : List Ty) (k i : ℕ)
      (name : List ℕ) (fs : FunctionTypes)
      → Denotes Exactly ts c ops t
      → IsSeparate all
      → get_elem? all i ≡ some t
      → All (IsKept all) fs
      → (fs' : FunctionTypes) × (type_record hash c ops (table_of ts k name fs)
          ≡ parsed (has_read t fs'))
        × All (IsKept all) fs'
  unfolding type_record
  type_record-Denotes all k i name fs a_void apart there kept = (fs, refl, kept)
  type_record-Denotes all k i name fs a_half apart there kept = (fs, refl, kept)
  type_record-Denotes all k i name fs a_float apart there kept = (fs, refl, kept)
  type_record-Denotes all k i name fs a_double apart there kept = (fs, refl, kept)
  type_record-Denotes all k i name fs a_label apart there kept = (fs, refl, kept)
  type_record-Denotes all k i name fs a_metadata apart there kept = (fs, refl, kept)
  type_record-Denotes all k i name fs (an_integer {n} low high other) apart there kept =
      (fs, rw (integer_record-some n low high other) refl, kept)
  type_record-Denotes {ts} all k i name fs (a_pointer {p} {ops} {t} at valid) apart there kept =
      (fs, rw (pointer_record-some ts k p ops t at valid) refl, kept)
  type_record-Denotes {ts} all k i name fs
        (a_function {v} {r} {ps} {t} {f} {us} at short args (is, ret)) apart there kept =
      let same = visited-all v r ps short in
      let (fs', e, kept') =
        function_record-some all ts k fs v r i ps t us at
          (subst (λ zs. AreArguments ts zs us) (sym same) args)
          (ap (λ (zs : List ℕ). length zs) same) ret apart (there ∙ ap some is) kept in
      (fs', rw e (ap (λ z. parsed (has_read z fs')) (sym is)), kept')
  type_record-Denotes {ts} all k i name fs
        (a_wrapped_function {v} {r} {ps} {t} {f} {us} at one_more args (is, ret)) apart there kept =
      let same = visited-wrapped v r ps one_more in
      let (fs', e, kept') =
        function_record-some all ts k fs v r i ps t us at
          (subst (λ zs. AreArguments ts zs us) (sym same) args)
          (ap (λ (zs : List ℕ). length zs) same ∙ length-wrapped v ps one_more) ret apart
          (there ∙ ap some is) kept in
      (fs', rw e (ap (λ z. parsed (has_read z fs')) (sym is)), kept')

  named-table :
      (code : ℕ) (ops : List ℕ) (ts : List Ty) (k : ℕ) (name : List ℕ) (fs : FunctionTypes)
      → type_code code ≡ struct_name_code
      → add_type_record hash code ops (table_of ts k name fs)
        ≡ parsed (table_of ts k (name ++ map (λ v. v % 2 ^ 8) (visited 0 ops)) fs)
  unfolding add_type_record type_record enter_type
  named-table code ops ts k name fs c =
      rw (add_type_record, c, type_record, convert_to_string-start ops name) refl

  get_elem?-at : (ts us : List Ty) (t : Ty) → get_elem? (ts ++ (t ∷ us)) (length ts) ≡ some t
  get_elem?-at [] us t = refl
  get_elem?-at (u ∷ ts) us t = get_elem?-at ts us t

  add_type_records-DenoteAll :
      {ts us : List Ty} {rs : List Record} (all : List Ty) (name : List ℕ) (fs : FunctionTypes)
      → DenoteAll Exactly ts rs us
      → length ts + length us < 2 ^ 32
      → all ≡ ts ++ us
      → IsSeparate all
      → All (IsKept all) fs
      → (name' : List ℕ) × ((fs' : FunctionTypes) × (add_type_records hash rs
              (table_of ts (length us) name fs)
            ≡ parsed (table_of (ts ++ us) 0 name' fs')))
  unfolding add_type_records add_type_record
  add_type_records-DenoteAll {ts} all name fs no_records short is apart kept =
      (name, (fs, ap (λ z. parsed (table_of z 0 name fs)) (sym (append-nil ts))))
  add_type_records-DenoteAll {ts} {us} all name fs (name_record {code} {ops} {rs} c d) short is
        apart kept =
      let (name', (fs', rest)) =
        add_type_records-DenoteAll all (name ++ map (λ v. v % 2 ^ 8) (visited 0 ops)) fs d short is
          apart kept in
      (name', (fs', rw (named-table code ops ts (length us) name fs c) rest))
  add_type_records-DenoteAll {ts} all name fs (Denotes.type_record {us} {t} {ops} d ds) short is
        apart kept =
      let (fs1, e, kept1) =
        type_record-Denotes all (suc (length us)) (length ts) name fs d apart
          (ap (λ z. get_elem? z (length ts)) is ∙ get_elem?-at ts us t) kept in
      let (name', (fs', rest)) =
        add_type_records-DenoteAll all name fs1 ds (omega (arith, short, length-snoc ts t))
          (is ∙ sym (append_assoc ts (t ∷ []) us)) apart kept1 in
      (
        name',
        (
          fs',
          rw (e, enter_type-free ts (length us) name fs fs1 t (omega (arith, short)))
              (rest ∙ ap (λ z. parsed (table_of z 0 name' fs')) (append_assoc ts (t ∷ []) us)),
        ),
      )

  -- A type table whose first record gives the number of its types, less than 2 ^ 32, and whose others
  -- denote as many types by the rules, is read without an error in a context that has no function types yet, and the
  -- types of the reader are those; if the hashes of different function types among them differ.
  pub parse_type_records-DenoteAll :
      {rs : List Record} (code : ℕ) (ops : List ℕ) (us : List Ty)
      → type_code code ≡ num_entry_code
      → length us < 2 ^ 32
      → DenoteAll Exactly [] rs us
      → IsSeparate us
      → (table : TypeTable) × (parse_type_records hash
            ((code, length us ∷ ops) ∷ rs)
            (start_table [] [])
          ≡ parsed table)
        × (table.type_list ≡ map some us)
  unfolding filled
  parse_type_records-DenoteAll {rs} code ops us first short d apart =
      let (name, (fs, e)) =
        add_type_records-DenoteAll us [] [] d (omega (arith, short)) refl apart tt in
      (
        table_of us 0 name fs,
        after_first hash code (length us) ops rs [] first
            ∙ (ap (λ m. m >>= end_types) e ∙ end_types-done us name fs short),
        append-nil (map some us),
      )
