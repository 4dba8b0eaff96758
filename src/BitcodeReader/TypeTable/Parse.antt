-- ===== src/BitcodeReader/TypeTable/Parse.antt =====
-- ParseTypeTable of Src/BitcodeReader.cpp over the hashes of function types.
use dilithium.Base.{ℕ, zero, suc, Bool, not, ltb, ◌==◌}
use dilithium.Base.{Option, none, some, List, [], ◌∷◌, length}
use dilithium.Types
use dilithium.Types.{Ty, Types, no_types, and_type, FunctionTypes}
use dilithium.Cursor.State.{unreachable, exhausted, Cursor}
use dilithium.Cursor.Record.{read_record}
use dilithium.Cursor.Block.{enter_sub_block}
use dilithium.Cursor.Entry.{error, end_block, sub_block, an_record, advance_skipping_subblocks}
use dilithium.BitcodeReader.TypeTable.{
  Parsed, ◌>>=◌, ◌>>◌, corrupted_if, from_outcome, type_block_id, TypeCode, type_code,
  convert_to_string, TypeTable, start_table, resize, type_by_id, argument_types, visited, num_types,
  or_invalid_type, Switched, integer_record, pointer_record, enter_type, end_types, struct_record,
  named_struct_record, array_record, vector_record, invalid_record, invalid_multiple_blocks,
  malformed_block, invalid_type, invalid_value, num_entry_code, void_code, float_code, double_code,
  label_code, opaque_code, integer_code, pointer_code, function_old_code, half_code, array_code,
  vector_code, x86_fp80_code, fp128_code, ppc_fp128_code, metadata_code, x86_mmx_code,
  struct_anon_code, struct_name_code, struct_named_code, function_code, unknown_code, parsed,
  corrupted, faulty, continued, has_read,
}

-- `hash` makes the keys of the function types.
module _ (hash : Ty → Types → Bool → ℕ) where
  unfoldable pub function_record :
      List (Option Ty) → FunctionTypes → ℕ → ℕ → List ℕ → Parsed (Ty × FunctionTypes)
  unfolding argument_types type_by_id visited
  function_record list fs vararg ret params = do
    arg_tys ← argument_types list (visited 2 (vararg ∷ ret ∷ params))
    found ← type_by_id list ret
    t ← or_invalid_type found
    corrupted_if (ltb (num_types arg_tys) (length params)) invalid_type
    from_outcome (Types.function_get hash t arg_tys (not (vararg == 0)) fs)

  -- The switch on the code of a record.
  unfoldable pub type_record : TypeCode → List ℕ → TypeTable → Parsed Switched
  unfolding resize integer_record pointer_record function_record struct_record array_record
      named_struct_record vector_record
  type_record num_entry_code (n ∷ _) table =
      parsed (continued (record table { type_list = resize n table.type_list }))
  type_record void_code ops table = parsed (has_read Types.void_ty table.function_types)
  type_record half_code ops table = parsed (has_read Types.half_ty table.function_types)
  type_record float_code ops table = parsed (has_read Types.float_ty table.function_types)
  type_record double_code ops table = parsed (has_read Types.double_ty table.function_types)
  type_record label_code ops table = parsed (has_read Types.label_ty table.function_types)
  type_record metadata_code ops table = parsed (has_read Types.metadata_ty table.function_types)
  type_record x86_fp80_code ops table = faulty unreachable
  type_record fp128_code ops table = faulty unreachable
  type_record ppc_fp128_code ops table = faulty unreachable
  type_record x86_mmx_code ops table = faulty unreachable
  type_record integer_code (n ∷ _) table =
      integer_record n >>= λ t. parsed (has_read t table.function_types)
  type_record pointer_code (p ∷ ops) table =
      pointer_record table.type_list p ops >>= λ t. parsed (has_read t table.function_types)
  type_record function_old_code (_ ∷ _ ∷ _ ∷ _) table = faulty unreachable
  type_record function_code (v ∷ r ∷ ps) table =
      function_record table.type_list table.function_types v r ps >>= λ r. parsed (has_read r.0 r.1)
  type_record struct_anon_code (p ∷ es) table =
      struct_record table.type_list p es >>= λ t. parsed (has_read t table.function_types)
  type_record struct_name_code ops table = elim (convert_to_string ops 0 table.type_name) [
    | none ↦ corrupted invalid_record
    | some name ↦ parsed (continued (record table { type_name = name }))
  ]
  type_record struct_named_code (_ ∷ _) table =
      named_struct_record table >>= λ t. parsed (has_read t table.function_types)
  type_record opaque_code (_ ∷ []) table =
      named_struct_record table >>= λ t. parsed (has_read t table.function_types)
  type_record array_code (_ ∷ e ∷ _) table =
      array_record table.type_list e >>= λ t. parsed (has_read t table.function_types)
  type_record vector_code (n ∷ e ∷ _) table =
      vector_record table.type_list n e >>= λ t. parsed (has_read t table.function_types)
  type_record unknown_code ops table = corrupted invalid_value
  type_record _ ops table = corrupted invalid_record

  unfoldable pub add_type_record : ℕ → List ℕ → TypeTable → Parsed TypeTable
  unfolding type_code type_record enter_type
  add_type_record code ops table =
      type_record (type_code code) ops table >>= λ switched. enter_type switched table

  -- The loop of ParseTypeTableBody.
  unfoldable pub type_table_loop : ℕ → TypeTable → Cursor → Parsed (TypeTable × Cursor)
  unfolding add_type_record end_types
  type_table_loop zero table c = faulty exhausted
  type_table_loop (suc fuel) table c =
      from_outcome (advance_skipping_subblocks 0 c) >>= λ (entry, c1). elim entry [
        | error ↦ corrupted malformed_block
        | sub_block id ↦ corrupted malformed_block
        | end_block ↦ end_types table >>= λ t. parsed (t, c1)
        | an_record id ↦ from_outcome (read_record id [] c1) >>= λ ((code, ops), c2).
            add_type_record code ops table >>= λ t. type_table_loop fuel t c2
      ]

  unfoldable pub parse_type_table_body :
      ℕ → List (Option Ty) → FunctionTypes → Cursor → Parsed (TypeTable × Cursor)
  unfolding type_table_loop
  parse_type_table_body fuel type_list fs c = do
    corrupted_if (not (length type_list == 0)) invalid_multiple_blocks
    type_table_loop fuel (start_table type_list fs) c

  -- ParseTypeTable
  unfoldable pub parse_type_table :
      ℕ → List (Option Ty) → FunctionTypes → Cursor → Parsed (TypeTable × Cursor)
  unfolding parse_type_table_body
  parse_type_table fuel type_list fs c =
      from_outcome (enter_sub_block type_block_id c) >>= λ ((failed, _), c1).
      corrupted_if failed invalid_record >> parse_type_table_body fuel type_list fs c1
