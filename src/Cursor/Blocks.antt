-- ===== src/Cursor/Blocks.antt =====
-- Entering and leaving a block, and the block infos of the reader: see Src/BitstreamReader.cpp.
use dilithium.Base.{
  ℕ, ◌%◌, ◌^◌, ◌≡◌, refl, ap, ◌∙◌, arith, inl, inr, Bool, true, false, if◌then◌else◌, ltb, ◌==◌,
}
use dilithium.Base.{Option, some, List, ◌∷◌, Bool-cases}
use dilithium.BitCode.{code_len_width, block_size_width}
use dilithium.Cursor.State.{Cursor, Block, BlockInfo, M, pure, ◌>>=◌, Outcome, ok, fail}
use dilithium.Cursor.Word.{read, at_end_of_stream, align_word, skip_to_four_byte_boundary}
use dilithium.Cursor.Vbr.{read_vbr}
use dilithium.Cursor.Block.{
  info_abbrevs, push_block_scope, enter_sub_block, pop_block_scope, read_block_end,
}
use dilithium.Cursor.Scope.{
  Scope, scope_of, Results, Leaves, Results-bind, read-Leaves, read_vbr-Leaves, at_end-Leaves,
  align-Leaves,
}

-- What a cursor in a block that was entered from `c` has.
pub record IsEntered (block_id : ℕ) (c c' : Cursor) : Type 0 where
  pub infos_eq : c'.reader.block_infos ≡ c.reader.block_infos
  pub abbrevs_eq : c'.curr_abbrevs ≡ info_abbrevs c.reader.block_infos block_id
  pub scope_eq :
      c'.block_scope
      ≡ record { prev_code_size = c.curr_code_size; prev_abbrevs = c.curr_abbrevs } ∷ c.block_scope

IsEntered-trans :
    (block_id : ℕ) (c c1 c2 : Cursor)
    → c2.reader.block_infos ≡ c1.reader.block_infos
    → c2.curr_abbrevs ≡ c1.curr_abbrevs
    → c2.block_scope ≡ c1.block_scope
    → IsEntered block_id c c1
    → IsEntered block_id c c2
IsEntered-trans block_id c c1 c2 infos abbrevs scope h = record {
  infos_eq = infos ∙ h.infos_eq;
  abbrevs_eq = abbrevs ∙ h.abbrevs_eq;
  scope_eq = scope ∙ h.scope_eq;
}

-- The same with the equation of whole scopes.
IsEntered-Leaves :
    (block_id : ℕ) (c c1 c2 : Cursor)
    → scope_of c2 ≡ scope_of c1
    → IsEntered block_id c c1
    → IsEntered block_id c c2
IsEntered-Leaves block_id c c1 c2 e =
    IsEntered-trans block_id c c1 c2 (ap (λ (s : Scope). s.0) e) (ap (λ (s : Scope). s.2) e)
      (ap (λ (s : Scope). s.3) e)

-- The rule for a step that leaves the scope alone.
IsEntered-step :
    {A B : Type 0} (block_id : ℕ) (c c1 : Cursor) (r : Outcome (A × Cursor)) (f : A → M B)
    → IsEntered block_id c c1
    → Results (Leaves c1) r
    → ((a : A) (c' : Cursor)
        → IsEntered block_id c c'
        → Results (λ b. IsEntered block_id c) (f a c'))
    → Results (λ b. IsEntered block_id c) (elim r [ ok (a, c') ↦ f a c' | fail e ↦ fail e ])
IsEntered-step block_id c c1 r f h leaves k =
    Results-bind (Leaves c1) (λ b. IsEntered block_id c) r f leaves
      (λ a c' e. k a c' (IsEntered-Leaves block_id c c1 c' e h))

-- The end of EnterSubBlock, with the size of the block at hand.
at_end-IsEntered :
    (block_id : ℕ) (width words : ℕ) (c c1 : Cursor)
    → IsEntered block_id c c1
    → Results {A = Bool × Option ℕ}
        (λ r. IsEntered block_id c)
        ((if width == 0
            then pure (true, some words)
            else (at_end_of_stream >>= λ at_end. pure (at_end, some words)))
          c1)
at_end-IsEntered block_id width words c c1 h = elim (Bool-cases (width == 0)) [
  | inl none_given ↦ rw none_given h
  | inr given ↦ rw given (
      IsEntered-step block_id c c1 (at_end_of_stream c1) (λ at_end. pure (at_end, some words)) h
        (at_end-Leaves c1) (λ at_end c' h'. h'))
]

-- If EnterSubBlock returns, error or not, the cursor is in the block: the width and the
-- abbreviations that it had are on top of the block scope, and the abbreviations are those that the
-- info of the block gives it.
pub enter_sub_block-IsEntered :
    (block_id : ℕ) (c : Cursor) → Results (λ r. IsEntered block_id c) (enter_sub_block block_id c)
unfolding enter_sub_block push_block_scope skip_to_four_byte_boundary
enter_sub_block-IsEntered block_id c =
    let c0 = push_block_scope block_id c in
    IsEntered-step block_id c c0 (read_vbr code_len_width c0) _
      (record { infos_eq = refl; abbrevs_eq = refl; scope_eq = refl })
      (read_vbr-Leaves code_len_width c0)
      λ width c1 h1.
        let h2 =
          IsEntered-trans block_id c c1 (record c1 { curr_code_size = width }) refl refl refl h1 in
        elim (Bool-cases (ltb 64 width)) [
          | inl wide ↦ rw wide h2
          | inr narrow ↦
              let c2 = align_word (record c1 { curr_code_size = width }) in
              let h3 = IsEntered-Leaves block_id c _ c2 (align-Leaves _) h2 in
              rw narrow (
                IsEntered-step block_id c c2 (read block_size_width c2) _ h3
                  (read-Leaves block_size_width c2)
                  (λ v c3 h4. at_end-IsEntered block_id width (v % 2 ^ 32) c c3 h4))
        ]

-- ReadBlockEnd within a block restores what the top of the block scope holds.
pub read_block_end-restores :
    (b : Block) (bs : List Block) (c : Cursor)
    → c.block_scope ≡ b ∷ bs
    → (c' : Cursor) × (read_block_end c ≡ ok (false, c'))
      × (scope_of c' ≡ (c.reader.block_infos, b.prev_code_size, b.prev_abbrevs, bs))
unfolding read_block_end pop_block_scope skip_to_four_byte_boundary
read_block_end-restores b bs c e =
    let aligned = ap (λ (s : Scope). s.3) (align-Leaves c) in
    let infos = ap (λ (s : Scope). s.0) (align-Leaves c) in
    (
      record (align_word c) {
        curr_code_size = b.prev_code_size;
        curr_abbrevs = b.prev_abbrevs;
        block_scope = bs;
      },
      ground (arith, e, aligned),
      ap (λ (i : List BlockInfo). (i, b.prev_code_size, b.prev_abbrevs, bs)) infos,
    )

-- Leaving the block just entered restores the width, the abbreviations and the block scope.
pub read_block_end-enter_sub_block :
    (block_id : ℕ) (c : Cursor)
    → Results
        (λ failed c'. (failed ≡ false) × (scope_of c' ≡ scope_of c))
        ((enter_sub_block block_id >>= λ r. read_block_end) c)
read_block_end-enter_sub_block block_id c =
    Results-bind (λ r. IsEntered block_id c) _ (enter_sub_block block_id c) (λ r. read_block_end)
      (enter_sub_block-IsEntered block_id c)
      (λ r c1 h.
        let (c2, e, restored) = read_block_end-restores _ c.block_scope c1 h.scope_eq in
        rw e (
          refl,
          restored
              ∙ ap (λ (i : List BlockInfo). (i, c.curr_code_size, c.curr_abbrevs, c.block_scope))
                  h.infos_eq,
        ))
