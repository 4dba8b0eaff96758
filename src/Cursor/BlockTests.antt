-- ===== src/Cursor/BlockTests.antt =====
-- Records and blocks on short streams.
use dilithium.Base.{
  ℕ, ◌*◌, ◌≡◌, refl, arith, List, [], ◌∷◌, length, All, IsByte, false, slice, le_value,
}
use dilithium.BitCode.{unabbrev_record_id}
use dilithium.Stream.{open_stream}
use dilithium.Cursor.State.{Cursor, BlockInfo, init, ok, ◌>>=◌}
use dilithium.Cursor.Record.{read_record}
use dilithium.Cursor.Block.{enter_sub_block, read_block_end}
use dilithium.Cursor.Sound.{bits_at}
use dilithium.Cursor.Reads.{Moved}
use dilithium.Cursor.VbrFormat.{vbr_chunks}
use dilithium.Cursor.RecordReads.{StoredAt, fields, read_record-fields}
use dilithium.Cursor.Ends.{Ends, Keeps}
use dilithium.Cursor.Scope.{scope_of}
use dilithium.Cursor.Nesting.{read_block_end-enter_sub_block_restores}
use dilithium.Cursor.Starts.{cursor_on, cursor_on-IsSound, cursor_on-IsWithin}

-- A record with code 7 and the operand 98, in the chunks 7, 1, 34 and 3 of 6 bits.
abbrev a_record : List ℕ
a_record = 0x47 ∷ 0x20 ∷ 0x0e ∷ 0 ∷ []

a_record-IsByte : All IsByte a_record
a_record-IsByte = (omega arith, (omega arith, (omega arith, (omega arith, tt))))

a_record-StoredAt : StoredAt (fields (7 ∷ 1 ∷ 98 ∷ [])) (cursor_on a_record 0)
unfolding init open_stream fields vbr_chunks bits_at slice le_value
a_record-StoredAt = record {
  sound = cursor_on-IsSound a_record 0 a_record-IsByte;
  stored = (refl, (refl, (refl, (refl, tt))));
  room = omega arith;
}

read_record-fields_example :
    (c' : Cursor) × (read_record unabbrev_record_id [] (cursor_on a_record 0)
      ≡ ok ((7, 98 ∷ []), c'))
    × Moved (6 * length (fields (7 ∷ 1 ∷ 98 ∷ []))) (cursor_on a_record 0) c'
read_record-fields_example =
    read_record-fields 7 (98 ∷ []) [] (cursor_on a_record 0) (omega arith) (omega arith)
      (omega arith, tt) a_record-StoredAt

-- The header of a block with codes of 3 bits and no words.
abbrev a_block : List ℕ
a_block = 3 ∷ 0 ∷ 0 ∷ 0 ∷ 0 ∷ 0 ∷ 0 ∷ 0 ∷ 0 ∷ 0 ∷ 0 ∷ 0 ∷ []

read_block_end-enter_sub_block_restores_example :
    Ends
      (λ failed c'.
        Keeps (cursor_on a_block 0) c'
        × ((failed ≡ false) × (scope_of c' ≡ scope_of (cursor_on a_block 0))))
      ((enter_sub_block 8 >>= λ r. read_block_end) (cursor_on a_block 0))
read_block_end-enter_sub_block_restores_example =
    read_block_end-enter_sub_block_restores 8 (cursor_on a_block 0) (cursor_on-IsWithin a_block 0)

abbrev infos : List BlockInfo
infos = record { block_id = 8; abbrevs = [] } ∷ []
