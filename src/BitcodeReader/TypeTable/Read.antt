-- ===== src/BitcodeReader/TypeTable/Read.antt =====
-- ParseTypeTable of Src/BitcodeReader.cpp from a cursor: what has been read when it returns, and that
-- it returns.
use dilithium.Base.{
  ℕ, zero, suc, ◌^◌, ◌<◌, ◌≡◌, refl, ap, sym, ◌∙◌, subst, arith, Bool, false, not, ◌==◌, Option,
  some, List, [], ◌∷◌, length, All, map,
}
use dilithium.Types.{Ty, Types, FunctionTypes}
use dilithium.Types.Interned.{AreKeyed}
use dilithium.Cursor.State.{Cursor, ok, exhausted}
use dilithium.Cursor.Record.{read_record}
use dilithium.Cursor.Block.{enter_sub_block}
use dilithium.Cursor.Entry.{
  Entry, error, end_block, sub_block, an_record, advance_skipping_subblocks,
}
use dilithium.BitcodeReader.TypeTable.Parse.{
  add_type_record, type_table_loop, parse_type_table_body, parse_type_table,
}
use dilithium.BitcodeReader.TypeTable.{
  Parsed, parsed, ◌>>=◌, TypeTable, end_types, start_table, type_block_id, type_code,
  num_entry_code, malformed_block, invalid_record, corrupted, from_outcome, invalid_multiple_blocks,
}
use dilithium.BitcodeReader.TypeTable.Gives.{
  Gives, Gives-bind, Gives-self, Gives-weaken, Gives-parsed, Gives-corrupted, Gives-faulty,
  after_check, after_outcome, of_parsed,
}
use dilithium.BitcodeReader.TypeTable.Denotes.{
  Record, DenoteAll, add_type_records, parse_type_records,
}
use dilithium.BitcodeReader.TypeTable.Sound.{IsFrom}
use dilithium.BitcodeReader.TypeTable.Complete.{Exactly, IsSeparate, parse_type_records-DenoteAll}
use dilithium.BitcodeReader.TypeTable.Reading.{IsTypeRecord, parse_type_records-Denote}
use dilithium.BitcodeReader.TypeTable.Supplied.{
  Supplies, ends, gives, with_cursor, parse_type_table-Supplies,
}

module _ (hash : Ty → Types → Bool → ℕ) where
  -- The cursor has supplied records from `c` on, and they have made the table.
  abbrev HasRead : TypeTable → Cursor → TypeTable × Cursor → Type 0
  HasRead table c (t, c') =
      (rs : List Record) × Supplies c rs c' × (parse_type_records hash rs table ≡ parsed t)

  end_types-HasRead :
      (table : TypeTable) (c c1 : Cursor)
      → advance_skipping_subblocks 0 c ≡ ok (end_block, c1)
      → Gives (HasRead table c) (end_types table >>= λ t. parsed (t, c1))
  unfolding parse_type_records add_type_records
  end_types-HasRead table c c1 e =
      Gives-bind (λ t. end_types table ≡ parsed t) (HasRead table c) (end_types table) _
        (Gives-self (end_types table))
        λ t same. Gives-parsed (HasRead table c) (t, c1) ([], ends e, same)

  -- A record, and what the rounds behind it give.
  record-HasRead :
      (table : TypeTable) (c c1 c2 : Cursor) (id code : ℕ) (ops : List ℕ)
      (loop : TypeTable → Parsed (TypeTable × Cursor))
      → advance_skipping_subblocks 0 c ≡ ok (an_record id, c1)
      → read_record id [] c1 ≡ ok ((code, ops), c2)
      → ((t : TypeTable) → Gives (HasRead t c2) (loop t))
      → Gives (HasRead table c) (add_type_record hash code ops table >>= loop)
  unfolding parse_type_records add_type_records
  record-HasRead table c c1 c2 id code ops loop e r rest =
      Gives-bind (λ t. add_type_record hash code ops table ≡ parsed t) (HasRead table c)
        (add_type_record hash code ops table) loop
        (Gives-self (add_type_record hash code ops table))
        λ t same.
          Gives-weaken (HasRead t c2) (HasRead table c)
            (λ z (rs, s, made). ((code, ops) ∷ rs, gives e r s, rw same made)) (loop t) (rest t)

  type_table_loop-HasRead :
      (fuel : ℕ) (table : TypeTable) (c : Cursor)
      → Gives (HasRead table c) (type_table_loop hash fuel table c)
  unfolding type_table_loop
  type_table_loop-HasRead zero table c = Gives-faulty (HasRead table c) exhausted
  type_table_loop-HasRead (suc fuel) table c =
      after_outcome (HasRead table c) (advance_skipping_subblocks 0 c) _
        λ (entry, c1) e. go entry c1 e (λ t c2. type_table_loop-HasRead fuel t c2)
    where
      go :
          (entry : Entry) (c1 : Cursor)
          → advance_skipping_subblocks 0 c ≡ ok (entry, c1)
          → ((t : TypeTable) (c2 : Cursor) → Gives (HasRead t c2) (type_table_loop hash fuel t c2))
          → Gives (HasRead table c) (elim entry [
            | error ↦ corrupted malformed_block
            | sub_block id ↦ corrupted malformed_block
            | end_block ↦ end_types table >>= λ t. parsed (t, c1)
            | an_record id ↦ from_outcome (read_record id [] c1) >>= λ ((code, ops), c2).
                add_type_record hash code ops table >>= λ t. type_table_loop hash fuel t c2
          ])
      go error c1 e rest = Gives-corrupted (HasRead table c) malformed_block
      go (sub_block id) c1 e rest = Gives-corrupted (HasRead table c) malformed_block
      go end_block c1 e rest = end_types-HasRead table c c1 e
      go (an_record id) c1 e rest =
          after_outcome (HasRead table c) (read_record id [] c1) _ λ ((code, ops), c2) r.
            record-HasRead table c c1 c2 id code ops (λ t. type_table_loop hash fuel t c2) e r
              λ t. rest t c2

  no_types_yet : (list : List (Option Ty)) → not (length list == 0) ≡ false → list ≡ []
  no_types_yet [] h = refl
  no_types_yet (t ∷ list) h = absurd (ground (arith, h))

  -- The types of the table are those that the records denote, if the first gives their number and no
  -- other does.
  abbrev pub AreDenoted : List Record → TypeTable → Type 0
  AreDenoted rs table =
      (code n : ℕ) (ops : List ℕ) (rest : List Record)
      → rs ≡ (code, n ∷ ops) ∷ rest
      → type_code code ≡ num_entry_code
      → All IsTypeRecord rest
      → (us : List Ty) × DenoteAll (IsFrom hash) [] rest us
        × (length us ≡ n)
        × (table.type_list ≡ map some us)

  -- What has been done when ParseTypeTable returns.
  abbrev pub HasParsed : List (Option Ty) → Cursor → TypeTable × Cursor → Type 0
  HasParsed list c (table, c') =
      (list ≡ [])
      × ((c1 : Cursor) × ((n : Option ℕ) × ((rs : List Record) × (enter_sub_block type_block_id c
                ≡ ok ((false, n), c1))
              × Supplies c1 rs c'
              × AreDenoted rs table)))

  made-AreDenoted :
      (rs : List Record) (fs : FunctionTypes) (table : TypeTable)
      → AreKeyed hash fs
      → parse_type_records hash rs (start_table [] fs) ≡ parsed table
      → AreDenoted rs table
  made-AreDenoted rs fs table keyed made code n ops rest same first types =
      parse_type_records-Denote hash code n ops rest fs table first types keyed
        (ap (λ z. parse_type_records hash z (start_table [] fs)) (sym same) ∙ made)

  parse_type_table_body-HasRead :
      (fuel : ℕ) (list : List (Option Ty)) (fs : FunctionTypes) (c : Cursor)
      → Gives
          (λ r. (list ≡ []) × HasRead (start_table [] fs) c r)
          (parse_type_table_body hash fuel list fs c)
  unfolding parse_type_table_body
  parse_type_table_body-HasRead fuel list fs c =
      after_check (λ r. (list ≡ []) × HasRead (start_table [] fs) c r) _ invalid_multiple_blocks _
        λ fresh.
          let empty = no_types_yet list fresh in
          Gives-weaken (HasRead (start_table list fs) c)
            (λ r. (list ≡ []) × HasRead (start_table [] fs) c r)
            (λ r has. (empty, subst (λ z. HasRead (start_table z fs) c r) empty has))
            (type_table_loop hash fuel (start_table list fs) c)
            (type_table_loop-HasRead fuel (start_table list fs) c)

  parse_type_table-HasParsed :
      (fuel : ℕ) (list : List (Option Ty)) (fs : FunctionTypes) (c : Cursor)
      → AreKeyed hash fs
      → Gives (HasParsed list c) (parse_type_table hash fuel list fs c)
  unfolding parse_type_table
  parse_type_table-HasParsed fuel list fs c keyed =
      after_outcome (HasParsed list c) (enter_sub_block type_block_id c) _
        λ ((failed, n), c1) entered.
          after_check (HasParsed list c) failed invalid_record _ λ succeeded.
            Gives-weaken (λ r. (list ≡ []) × HasRead (start_table [] fs) c1 r) (HasParsed list c)
              (λ (table, c') (empty, (rs, s, made)). (
                empty,
                (
                  c1,
                  (
                    n,
                    (
                      rs,
                      entered ∙ ap (λ b. ok ((b, n), c1)) succeeded,
                      s,
                      made-AreDenoted rs fs table keyed made,
                    ),
                  ),
                ),
              ))
              (parse_type_table_body hash fuel list fs c1)
              (parse_type_table_body-HasRead fuel list fs c1)

  -- When ParseTypeTable returns, the reader had no types yet, the block was entered without an error,
  -- and the cursor read records up to the end of the block, behind which it is left; if the first of
  -- them gives the number of types, and no other does, the types of the reader are as many, none of
  -- them missing, and the ones that the records denote one after another by the rules.
  pub parse_type_table-Denote :
      (fuel : ℕ) (list : List (Option Ty)) (fs : FunctionTypes) (c c' : Cursor) (table : TypeTable)
      → AreKeyed hash fs
      → parse_type_table hash fuel list fs c ≡ parsed (table, c')
      → HasParsed list c (table, c')
  parse_type_table-Denote fuel list fs c c' table keyed e =
      of_parsed (HasParsed list c) (parse_type_table hash fuel list fs c) (table, c')
        (parse_type_table-HasParsed fuel list fs c keyed) e

  -- ParseTypeTable returns, for a reader without types and a context without function types, on a block
  -- that can be entered and from which the cursor reads a record that gives the number of types, less
  -- than 2 ^ 32, and then records that denote as many by the rules, if the hashes of different function
  -- types among them differ. One round for each record and one for the end are enough. The types are
  -- then those of the reader, and the cursor is behind the block.
  pub parse_type_table-DenoteAll :
      {c1 c' : Cursor} {rs : List Record} (c : Cursor) (n : Option ℕ) (fuel code : ℕ) (ops : List ℕ)
      (us : List Ty)
      → enter_sub_block type_block_id c ≡ ok ((false, n), c1)
      → Supplies c1 ((code, length us ∷ ops) ∷ rs) c'
      → type_code code ≡ num_entry_code
      → length us < 2 ^ 32
      → DenoteAll Exactly [] rs us
      → IsSeparate hash us
      → suc (length rs) < fuel
      → (table : TypeTable) × (parse_type_table hash fuel [] [] c ≡ parsed (table, c'))
        × (table.type_list ≡ map some us)
  parse_type_table-DenoteAll {c1} {c'} c n fuel code ops us entered s first short d apart enough =
      let (table, made, types) =
        parse_type_records-DenoteAll hash code ops us first short d apart in
      (
        table,
        parse_type_table-Supplies hash c n fuel [] entered s enough ∙ ap (with_cursor c') made,
        types,
      )
