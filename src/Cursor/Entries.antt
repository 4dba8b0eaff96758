-- ===== src/Cursor/Entries.antt =====
-- The termination of Advance of Src/BitstreamReader.cpp, on streams that are well formed or not.
use dilithium.Base.{ℕ, zero, suc, ◌%◌, ◌^◌, ◌<◌, ◌≡◌, refl, arith, inl, inr}
use dilithium.Base.{if◌then◌else◌, true, false, Bool-cases, Bool, List, [], ◌∷◌}
use dilithium.BitCode.{block_id_width}
use dilithium.Cursor.State.{Cursor, Block, pure, Outcome, ok, fail}
use dilithium.Cursor.Word.{read, skip_to_four_byte_boundary}
use dilithium.Cursor.Vbr.{bits_left}
use dilithium.Cursor.Abbrev.{read_abbrev_record}
use dilithium.Cursor.Block.{read_block_end, read_code, read_sub_block_id}
use dilithium.Cursor.Entry.{error, end_block, sub_block, entry_of, advance_loop, advance}
use dilithium.Cursor.Entry.{is_auto_abbrev}
use dilithium.Cursor.Ends.{IsWithin, Ends, Ends-bind, Kept, Kept-after, Kept-bind}
use dilithium.Cursor.Ends.{Progress, read-Ends}
use dilithium.Cursor.Loops.{Keeps-refl, read_vbr-Ends, read_abbrev_record-Ends}

low_code :
    (c : Cursor) (r : Outcome (ℕ × Cursor))
    → Ends (Progress c) r
    → Ends (Progress c) (elim r [ ok (v, c') ↦ ok (v % 2 ^ 32, c') | fail e ↦ fail e ])
low_code c (ok (v, c')) h = (h.0, ground (arith, h.1))
low_code c (fail e) h = h

read_code-Ends : (c : Cursor) → IsWithin c → Ends (Progress c) (read_code c)
unfolding read_code
read_code-Ends c h = low_code c (read c.curr_code_size c) (read-Ends c.curr_code_size c h)

pub read_block_end-Ends : (c : Cursor) → IsWithin c → Ends (Kept c) (read_block_end c)
unfolding read_block_end skip_to_four_byte_boundary
read_block_end-Ends c h = scopes c.block_scope refl
  where
    scopes : (bs : List Block) → c.block_scope ≡ bs → Ends (Kept c) (read_block_end c)
    scopes [] e = ground (arith, Keeps-refl c h)
    scopes (b ∷ bs) e = ground arith

end_rest-Ends :
    (failed : Bool) (c : Cursor)
    → IsWithin c
    → Ends (Kept c) ((if failed then pure error else pure end_block) c)
end_rest-Ends true c h = Keeps-refl c h
end_rest-Ends false c h = Keeps-refl c h

entry_of-Ends : (flags code : ℕ) (c : Cursor) → IsWithin c → Ends (Kept c) (entry_of flags code c)
unfolding entry_of read_sub_block_id
entry_of-Ends flags code c h = ground (
  arith,
  Keeps-refl c h,
  Kept-bind c (read_block_end c) _ (read_block_end-Ends c h) end_rest-Ends,
  Kept-bind c (read_sub_block_id c) (λ id. pure (sub_block id)) (read_vbr-Ends block_id_width c h)
      (λ id c'. Keeps-refl c'),
)

advance_loop-Ends :
    (fuel flags : ℕ) (c : Cursor)
    → IsWithin c
    → bits_left c < fuel
    → Ends (Kept c) (advance_loop fuel flags c)
unfolding advance_loop
advance_loop-Ends zero flags c h enough = absurd (omega arith)
advance_loop-Ends (suc fuel) flags c h enough =
    Ends-bind (Progress c) (Kept c) (read_code c) _ (read_code-Ends c h) λ code c1 p.
      Kept-after c c1 _ p.0 (elim (Bool-cases (is_auto_abbrev flags code)) [
        | inl auto ↦ rw auto (
            Ends-bind (Kept c1) (Kept c1) (read_abbrev_record c1) _
              (read_abbrev_record-Ends c1 p.0.within)
              λ _ c2 k.
                Kept-after c1 c2 _ k
                  (advance_loop-Ends fuel flags c2 k.within (ground (arith, auto, p.1, k.shrinks))))
        | inr other ↦ rw other (entry_of-Ends flags code c1 p.0.within)
      ])

-- Advance ends on any cursor within its buffer and with any flags: its outcome is an entry, with
-- no more bits left than before and within the buffer, or a fault of the code, never a lack of
-- fuel.
pub advance-Ends : (flags : ℕ) (c : Cursor) → IsWithin c → Ends (Kept c) (advance flags c)
unfolding advance
advance-Ends flags c h = advance_loop-Ends (suc (bits_left c)) flags c h (omega arith)
