-- ===== src/Cursor/Nesting.antt =====
-- EnterSubBlock of Src/BitstreamReader.cpp, followed by ReadBlockEnd.
use dilithium.Base.{
  ℕ, ◌%◌, ◌^◌, ◌≡◌, arith, inl, inr, Bool, true, false, if◌then◌else◌, ltb, ◌==◌, Bool-cases,
  Option, some,
}
use dilithium.BitCode.{code_len_width, block_size_width}
use dilithium.Cursor.State.{Cursor, pure, ◌>>=◌, Outcome, ok, fail}
use dilithium.Cursor.Word.{
  read, fill_curr_word, at_end_of_stream, align_word, skip_to_four_byte_boundary,
}
use dilithium.Cursor.Vbr.{read_vbr}
use dilithium.Cursor.Block.{enter_sub_block, push_block_scope, read_block_end}
use dilithium.Cursor.Ends.{
  IsWithin, Keeps, Ends, Kept, Kept-after, Kept-bind, Progress-Kept, read-Ends, fill-Ends, Refilled,
}
use dilithium.Cursor.Loops.{Keeps-refl, read_vbr-Ends}
use dilithium.Cursor.Entries.{read_block_end-Ends}
use dilithium.Cursor.Scope.{Results, scope_of}
use dilithium.Cursor.Blocks.{read_block_end-enter_sub_block}

filled-Kept :
    (c : Cursor) (r : Outcome (Unit {0} × Cursor))
    → c.bits_in_curr_word ≡ 0
    → Ends (Refilled c) r
    → Ends (Kept c) r
filled-Kept c (ok (u, c')) e h = record { within = h.0; shrinks = omega (arith, h.1) }
filled-Kept c (fail x) e h = h

at_end-Ends : (c : Cursor) → IsWithin c → Ends (Kept c) (at_end_of_stream c)
unfolding at_end_of_stream
at_end-Ends c h = elim (Bool-cases (c.bits_in_curr_word == 0)) [
  | inr some_left ↦ ground (arith, some_left, Keeps-refl c h)
  | inl none_left ↦ ground (
    arith,
    none_left,
    Keeps-refl c h,
    Kept-bind c (fill_curr_word c) (λ u c'. ok (c'.bits_in_curr_word == 0, c'))
        (filled-Kept c (fill_curr_word c) (ground (arith, none_left)) (fill-Ends c h))
        (λ u c'. Keeps-refl c'),
  )
]

align-Keeps : (c : Cursor) → IsWithin c → Keeps c (align_word c)
unfolding align_word
align-Keeps c h = ground arith

sized-Ends :
    (width words : ℕ) (c : Cursor)
    → IsWithin c
    → Ends {A = Bool × Option ℕ} (Kept c) (
        (if width == 0
            then pure (true, some words)
            else (at_end_of_stream >>= λ at_end. pure (at_end, some words)))
          c)
sized-Ends width words c h = elim (Bool-cases (width == 0)) [
  | inl none_given ↦ rw none_given (Keeps-refl c h)
  | inr given ↦ rw given (
      Kept-bind c (at_end_of_stream c) (λ at_end. pure (at_end, some words)) (at_end-Ends c h)
        (λ at_end c'. Keeps-refl c'))
]

pub enter_sub_block-Ends :
    (block_id : ℕ) (c : Cursor) → IsWithin c → Ends (Kept c) (enter_sub_block block_id c)
unfolding enter_sub_block push_block_scope skip_to_four_byte_boundary
enter_sub_block-Ends block_id c h =
    let c0 = push_block_scope block_id c in
    Kept-after c c0 _ (record { within = h; shrinks = omega arith })
      (Kept-bind c0 (read_vbr code_len_width c0) _ (read_vbr-Ends code_len_width c0 h)
        λ width c1 h1.
          let k = align-Keeps (record c1 { curr_code_size = width }) h1 in
          let c2 = align_word (record c1 { curr_code_size = width }) in
          elim (Bool-cases (ltb 64 width)) [
            | inl wide ↦ rw wide (record { within = h1; shrinks = omega arith })
            | inr narrow ↦ rw narrow (
                Kept-after c1 c2 _ (record { within = k.within; shrinks = k.shrinks })
                  (Kept-bind c2 (read block_size_width c2) _
                    (Progress-Kept c2 _ (read-Ends block_size_width c2 k.within))
                    (λ v c3 h3. sized-Ends width (v % 2 ^ 32) c3 h3)))
          ])

Ends-Results :
    {A : Type 0} (P Q : A → Cursor → Type 0) (r : Outcome (A × Cursor))
    → Ends P r
    → Results Q r
    → Ends (λ a c. P a c × Q a c) r
Ends-Results P Q (ok (a, c)) h k = (h, k)
Ends-Results P Q (fail e) h k = h

-- Entering a block and leaving it at once ends, on any cursor within its buffer, in a fault of the
-- code, or in a cursor with the width, the abbreviations, the block scope and the block infos that
-- it had, and with no more bits left.
pub read_block_end-enter_sub_block_restores :
    (block_id : ℕ) (c : Cursor)
    → IsWithin c
    → Ends
        (λ failed c'. Keeps c c' × ((failed ≡ false) × (scope_of c' ≡ scope_of c)))
        ((enter_sub_block block_id >>= λ r. read_block_end) c)
read_block_end-enter_sub_block_restores block_id c h =
    Ends-Results (Kept c) _ _
      (Kept-bind c (enter_sub_block block_id c) (λ r. read_block_end)
        (enter_sub_block-Ends block_id c h) (λ r c'. read_block_end-Ends c'))
      (read_block_end-enter_sub_block block_id c)
