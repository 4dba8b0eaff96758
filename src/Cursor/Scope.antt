-- ===== src/Cursor/Scope.antt =====
-- The part of a cursor of Src/BitstreamReader.cpp that its reads have no business with: the block
-- infos, the width of a code, the abbreviations and the block scope.
use dilithium.Base.{
  ℕ, zero, suc, ◌+◌, ◌-◌, ◌%◌, ◌^◌, ◌≡◌, refl, ◌∙◌, arith, inl, inr, if◌then◌else◌, leb, ◌==◌,
}
use dilithium.Base.{List, Bool-cases}
use dilithium.BitCode.{Abbrev}
use dilithium.Cursor.State.{Cursor, Block, BlockInfo, M, Outcome, ok, fail}
use dilithium.Cursor.Word.{fill_curr_word, read, read_high, at_end_of_stream, align_word}
use dilithium.Cursor.Vbr.{vbr_loop, read_vbr_at, read_vbr, bits_left, more_bit, add_piece}

-- The part of a cursor that only the operations on blocks and abbreviations change.
abbrev pub Scope : Type 0
Scope = List BlockInfo × ℕ × List Abbrev × List Block

abbrev pub scope_of : Cursor → Scope
scope_of c = (c.reader.block_infos, c.curr_code_size, c.curr_abbrevs, c.block_scope)

-- `P` holds of the result, if there is one.
abbrev pub Results : {A : Type 0} → (A → Cursor → Type 0) → Outcome (A × Cursor) → Type 0
Results P (ok (a, c)) = P a c
Results P (fail e) = Unit {0}

abbrev pub Leaves : {A : Type 0} → Cursor → A → Cursor → Type 0
Leaves c a c' = scope_of c' ≡ scope_of c

pub Results-bind :
    {A B : Type 0} (P : A → Cursor → Type 0) (Q : B → Cursor → Type 0) (r : Outcome (A × Cursor))
    (f : A → M B)
    → Results P r
    → ((a : A) (c : Cursor) → P a c → Results Q (f a c))
    → Results Q (elim r [ ok (a, c) ↦ f a c | fail e ↦ fail e ])
Results-bind P Q (ok (a, c)) f h k = k a c h
Results-bind P Q (fail e) f h k = tt

Leaves-after :
    {A : Type 0} (c c1 : Cursor) (r : Outcome (A × Cursor))
    → scope_of c1 ≡ scope_of c
    → Results (Leaves c1) r
    → Results (Leaves c) r
Leaves-after c c1 (ok (a, c')) e h = h ∙ e
Leaves-after c c1 (fail x) e h = tt

pub Leaves-bind :
    {A B : Type 0} (c : Cursor) (r : Outcome (A × Cursor)) (f : A → M B)
    → Results (Leaves c) r
    → ((a : A) (c' : Cursor) → Results (Leaves c') (f a c'))
    → Results (Leaves c) (elim r [ ok (a, c') ↦ f a c' | fail e ↦ fail e ])
Leaves-bind c r f h k =
    Results-bind (Leaves c) (Leaves c) r f h (λ a c' e. Leaves-after c c' (f a c') e (k a c'))

fill-Leaves : (c : Cursor) → Results (Leaves c) (fill_curr_word c)
unfolding fill_curr_word
fill-Leaves c = ground arith

read_high-Leaves : (n ret left : ℕ) (c : Cursor) → scope_of (read_high n ret left c).1 ≡ scope_of c
unfolding read_high
read_high-Leaves n ret left c = ground arith

after_fill-Leaves :
    (n ret left : ℕ) (c : Cursor) (r : Outcome (Unit {0} × Cursor))
    → Results (Leaves c) r
    → Results (Leaves c) (elim r [ fail e ↦ fail e | ok (_, c') ↦ ok (read_high n ret left c') ])
after_fill-Leaves n ret left c (fail e) h = tt
after_fill-Leaves n ret left c (ok (_, c')) h = read_high-Leaves n ret left c' ∙ h

pub read-Leaves : (n : ℕ) (c : Cursor) → Results (Leaves c) (read n c)
unfolding read
read-Leaves n c = ground (
  arith,
  after_fill-Leaves n (if c.bits_in_curr_word == 0 then 0 else c.curr_word)
      (n - c.bits_in_curr_word) c (fill_curr_word c) (fill-Leaves c),
)

vbr_loop-Leaves :
    (fuel width n piece result next_bit : ℕ) (c : Cursor)
    → Results (Leaves c) (vbr_loop fuel width n piece result next_bit c)
unfolding vbr_loop
vbr_loop-Leaves zero width n piece result next_bit c = tt
vbr_loop-Leaves (suc fuel) width n piece result next_bit c =
    elim (Bool-cases (leb width next_bit)) [
      | inl wide ↦ rw wide tt
      | inr narrow ↦ rw narrow (elim (Bool-cases (more_bit n piece == 0)) [
        | inl last ↦ rw last refl
        | inr more ↦ rw more (
            Leaves-bind c (read n c) _ (read-Leaves n c) (λ v c'.
              vbr_loop-Leaves fuel width n (v % 2 ^ 32) (add_piece width n piece result next_bit)
                (next_bit + (n - 1)) c'))
      ])
    ]

pub read_vbr-Leaves : (n : ℕ) (c : Cursor) → Results (Leaves c) (read_vbr n c)
unfolding read_vbr read_vbr_at
read_vbr-Leaves n c =
    Leaves-bind c (read n c) _ (read-Leaves n c)
      (λ v c'. ground (arith, vbr_loop-Leaves (suc (suc (bits_left c'))) 32 n (v % 2 ^ 32) 0 0 c'))

pub at_end-Leaves : (c : Cursor) → Results (Leaves c) (at_end_of_stream c)
unfolding at_end_of_stream
at_end-Leaves c = ground (
  arith,
  Leaves-bind c (fill_curr_word c) (λ u c'. ok (c'.bits_in_curr_word == 0, c')) (fill-Leaves c)
      (λ u c'. refl),
)

pub align-Leaves : (c : Cursor) → scope_of (align_word c) ≡ scope_of c
unfolding align_word
align-Leaves c = ground arith
