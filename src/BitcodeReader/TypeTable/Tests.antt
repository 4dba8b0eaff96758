-- ===== src/BitcodeReader/TypeTable/Tests.antt =====
-- Runs of ParseTypeTable of Src/BitcodeReader.cpp.
use dilithium.Base.{
  ℕ, ◌≡◌, refl, arith, Bool, false, Option, none, some, List, [], ◌∷◌, length, All, map, le_value,
}
use dilithium.Types.{
  Ty, Types, no_types, and_type, void_ty, integer_ty, pointer_ty, function_ty, type_id,
  is_valid_pointee, is_valid_argument_type, is_valid_return_type, integer_get, pointer_get,
  function_get,
}
use dilithium.Stream.{open_stream, stream_read, xsgetn, tellg, seekoff}
use dilithium.Cursor.Vbr.{read_vbr, read_vbr64}
use dilithium.Cursor.Word.{
  read, fill_curr_word, read_high, skip_to_four_byte_boundary, at_end_of_stream,
}
use dilithium.Cursor.State.{Cursor, init}
use dilithium.Cursor.Record.{read_record}
use dilithium.Cursor.Block.{enter_sub_block, read_code, read_block_end}
use dilithium.Cursor.Entry.{advance, advance_skipping_subblocks}
use dilithium.Cursor.Starts.{cursor_on}
use dilithium.BitcodeReader.TypeTable.Parse.{parse_type_table, add_type_record}
use dilithium.BitcodeReader.TypeTable.{
  Parsed, parsed, corrupted, faulty, TypeTable, type_code, start_table, end_types, visited,
}
use dilithium.BitcodeReader.TypeTable.Denotes.{
  Record, DenoteAll, parse_type_records, type_record, no_records, an_integer, a_void, a_pointer,
  a_function, argument, no_arguments,
}
use dilithium.BitcodeReader.TypeTable.Complete.{Exactly, IsSeparate, parse_type_records-DenoteAll}
use dilithium.BitcodeReader.TypeTable.Reading.{IsTypeRecord, parse_type_records-Denote}
use dilithium.BitcodeReader.TypeTable.Sound.{IsFrom}
use dilithium.BitcodeReader.TypeTable.Valid.{IsValidType, parse_type_records-IsValidType}
use dilithium.BitcodeReader.TypeTable.Supplied.{gives, ends}
use dilithium.BitcodeReader.TypeTable.Read.{
  HasParsed, parse_type_table-Denote, parse_type_table-DenoteAll,
}

-- The block of the types i32, void, i32* and void (i32, i32*), behind its block id.
abbrev type_block : List ℕ
type_block =
    3 ∷ 0 ∷ 0 ∷ 0 ∷ 4 ∷ 0 ∷ 0 ∷ 0 ∷ 11 ∷ 2 ∷ 98 ∷ 71 ∷ 0 ∷ 6 ∷ 19 ∷ 128 ∷ 33 ∷ 1 ∷ 176 ∷ 138 ∷ 0 ∷ 2
    ∷ 64 ∷ 0 ∷ []

abbrev one_hash : Ty → Types → Bool → ℕ
one_hash r ps v = 7

abbrev i32_ptr : Ty
i32_ptr = pointer_ty (integer_ty 32) 0

abbrev four_types : List Ty
four_types =
    integer_ty 32
    ∷ void_ty
    ∷ i32_ptr
    ∷ function_ty false void_ty (and_type (integer_ty 32) (and_type i32_ptr no_types))
    ∷ []

abbrev types_of : Parsed (TypeTable × Cursor) → Option (List (Option Ty))
types_of (parsed (t, c)) = some t.type_list
types_of (corrupted e) = none
types_of (faulty e) = none

parse_runs :
    types_of (parse_type_table one_hash 6 [] [] (cursor_on type_block 0))
    ≡ some (map some four_types)
unfolding parse_type_table enter_sub_block read_record advance_skipping_subblocks init open_stream
    type_id is_valid_pointee is_valid_argument_type integer_get pointer_get function_get read_vbr
    read fill_curr_word read_high stream_read xsgetn le_value skip_to_four_byte_boundary
    at_end_of_stream tellg seekoff advance read_code read_vbr64 read_block_end
parse_runs = refl

abbrev type_records : List Record
type_records = (7, 32 ∷ []) ∷ (2, []) ∷ (8, 0 ∷ []) ∷ (21, 0 ∷ 1 ∷ 0 ∷ 2 ∷ []) ∷ []

type_records-DenoteAll : DenoteAll Exactly [] type_records four_types
unfolding type_code type_id is_valid_pointee is_valid_argument_type is_valid_return_type
type_records-DenoteAll =
    type_record (an_integer (omega arith) (omega arith) (λ e. absurd (omega arith))) (
      type_record a_void (
        type_record (a_pointer refl refl) (
          type_record
            (a_function {v = 0} refl (omega arith)
              (argument refl refl (argument refl refl no_arguments)) (refl, refl))
            no_records)))

four_types-IsSeparate : IsSeparate one_hash four_types
four_types-IsSeparate = (
  (tt, (tt, (tt, (tt, tt)))),
  (
    (tt, (tt, (tt, (tt, tt)))),
    ((tt, (tt, (tt, (tt, tt)))), ((tt, (tt, (tt, ((λ e. refl), tt)))), tt)),
  ),
)

parse_type_records-DenoteAll_example :
    (table : TypeTable) × (parse_type_records one_hash
        ((1, 4 ∷ []) ∷ type_records)
        (start_table [] [])
      ≡ parsed table)
    × (table.type_list ≡ map some four_types)
unfolding type_code
parse_type_records-DenoteAll_example =
    parse_type_records-DenoteAll one_hash 1 [] four_types refl (omega arith) type_records-DenoteAll
      four_types-IsSeparate

abbrev four_table : TypeTable
four_table = record {
  type_list = map some four_types;
  num_records = 4;
  type_name = [];
  function_types =
      (7, function_ty false void_ty (and_type (integer_ty 32) (and_type i32_ptr no_types))) ∷ [];
}

parse_four :
    parse_type_records one_hash ((1, 4 ∷ []) ∷ type_records) (start_table [] []) ≡ parsed four_table
unfolding parse_type_records type_id is_valid_pointee is_valid_argument_type integer_get pointer_get
    function_get add_type_record end_types
parse_four = refl

-- A record is of a type: its code is not that of NUMENTRY.
type_records-IsTypeRecord : All IsTypeRecord type_records
unfolding type_code
type_records-IsTypeRecord = (
  (λ e. absurd (ground (arith, e))),
  (
    (λ e. absurd (ground (arith, e))),
    ((λ e. absurd (ground (arith, e))), ((λ e. absurd (ground (arith, e))), tt)),
  ),
)

parse_type_records-Denote_example :
    (us : List Ty) × DenoteAll (IsFrom one_hash) [] type_records us
    × (length us ≡ 4)
    × (map some four_types ≡ map some us)
unfolding type_code
parse_type_records-Denote_example =
    parse_type_records-Denote one_hash 1 4 [] type_records [] four_table refl
      type_records-IsTypeRecord tt parse_four

parse_type_records-IsValidType_example : (t : Ty) × (some i32_ptr ≡ some t) × IsValidType t
unfolding type_code
parse_type_records-IsValidType_example =
    parse_type_records-IsValidType one_hash 1 4 2 [] type_records [] four_table (some i32_ptr) refl
      type_records-IsTypeRecord tt parse_four refl

abbrev cursor_of : Parsed (TypeTable × Cursor) → Cursor
cursor_of (parsed (t, c)) = c
cursor_of (corrupted e) = cursor_on [] 0
cursor_of (faulty e) = cursor_on [] 0

-- The cursor behind the block.
abbrev behind_block : Cursor
behind_block = cursor_of (parse_type_table one_hash 6 [] [] (cursor_on type_block 0))

parse_type_table-Denote_example :
    HasParsed one_hash [] (cursor_on type_block 0) (four_table, behind_block)
unfolding parse_type_table type_id is_valid_pointee is_valid_argument_type integer_get pointer_get
    function_get enter_sub_block read_record advance_skipping_subblocks init open_stream read_vbr
    read fill_curr_word read_high stream_read xsgetn le_value skip_to_four_byte_boundary
    at_end_of_stream tellg seekoff advance read_code read_vbr64 read_block_end type_code
parse_type_table-Denote_example =
    parse_type_table-Denote one_hash 6 [] [] (cursor_on type_block 0) behind_block four_table tt
      refl

parse_type_table-DenoteAll_example :
    (table : TypeTable) × (parse_type_table one_hash 6 [] [] (cursor_on type_block 0)
      ≡ parsed (table, behind_block))
    × (table.type_list ≡ map some four_types)
unfolding parse_type_table type_id is_valid_pointee is_valid_argument_type integer_get pointer_get
    function_get enter_sub_block read_record advance_skipping_subblocks init open_stream read_vbr
    read fill_curr_word read_high stream_read xsgetn le_value skip_to_four_byte_boundary
    at_end_of_stream tellg seekoff advance read_code read_vbr64 read_block_end type_code
parse_type_table-DenoteAll_example =
    parse_type_table-DenoteAll one_hash (cursor_on type_block 0) (some 4) 6 1 [] four_types refl
      (gives refl refl
        (gives refl refl (gives refl refl (gives refl refl (gives refl refl (ends refl))))))
      refl (omega arith) type_records-DenoteAll four_types-IsSeparate (omega arith)

visited_runs : visited 2 (5 ∷ 6 ∷ 7 ∷ 8 ∷ []) ≡ 7 ∷ 8 ∷ []
unfolding visited
visited_runs = refl

-- A second NUMENTRY takes two types away, and a third makes room for them again: the table is
-- accepted with two null pointers.
abbrev shrunk_records : List Record
shrunk_records = (1, 2 ∷ []) ∷ (2, []) ∷ (2, []) ∷ (1, 0 ∷ []) ∷ (1, 3 ∷ []) ∷ (2, []) ∷ []

shrunk_runs :
    parse_type_records one_hash shrunk_records (start_table [] [])
    ≡ parsed (record {
      type_list = none ∷ none ∷ some void_ty ∷ [];
      num_records = 3;
      type_name = [];
      function_types = [];
    })
unfolding parse_type_records add_type_record end_types
shrunk_runs = refl
