-- ===== src/Cursor/Loops.antt =====
-- The loops of Src/BitstreamReader.cpp for VBR fields and abbreviation definitions.
use dilithium.Base.{ℕ, zero, suc, ◌+◌, ◌-◌, ◌%◌, ◌^◌, ◌<◌, ◌≡◌, refl, arith, ◌⊎◌, inl, inr, ◌≢◌}
use dilithium.Base.{length, if◌then◌else◌, ◌==◌, leb, ltb, true, false, Bool-cases, Bool}
use dilithium.Base.{Option, none, some, [], ◌∷◌, ◌++◌}
use dilithium.BitCode.{Encoding, encoding_of, has_encoding_data, encoded, literal, Abbrev}
use dilithium.Cursor.State.{throw, pure, modify, fatal, unreachable}
use dilithium.Cursor.Abbrev.{sized_op, read_encoding, read_abbrev_op, read_abbrev_ops}
use dilithium.Cursor.Abbrev.{read_abbrev_record}
use Prim.Native.Nat.{bit_and-bitwise}
use dilithium.Cursor.State.{Cursor, ◌>>=◌, Fault, undefined, exhausted}
use dilithium.Cursor.Word.{read}
use dilithium.Cursor.Vbr.{
  bits_left, more_bit, add_piece, vbr_loop, read_vbr_at, read_vbr, read_vbr64,
}
use dilithium.Cursor.Ends.{
  IsWithin, Keeps, Ends, Ends-bind, Kept, Kept-after, Kept-bind, Progress-Kept, Progress, read-Ends,
}

undefined-ne-exhausted : undefined ≢ exhausted
undefined-ne-exhausted e = cc

pub Keeps-refl : (c : Cursor) → IsWithin c → Keeps c c
Keeps-refl c h = record { within = h; shrinks = omega arith }

more_bit_pos : (n piece : ℕ) → (more_bit n piece == 0) ≡ false → piece ≢ 0
more_bit_pos n zero h e = cc (bit_and-bitwise 0 (2 ^ (n - 1)))
more_bit_pos n (suc p) h e = omega arith

-- The fuel covers the bits left and the piece that ends the loop.
vbr_loop-Ends :
    (fuel width n piece result next_bit : ℕ) (c : Cursor)
    → IsWithin c
    → (suc (bits_left c) < fuel) ⊎ (piece ≡ 0) × (0 < fuel)
    → Ends (Kept c) (vbr_loop fuel width n piece result next_bit c)
unfolding vbr_loop
vbr_loop-Ends zero width n piece result next_bit c h enough = absurd (omega arith)
vbr_loop-Ends (suc fuel) width n piece result next_bit c h enough =
    elim (Bool-cases (leb width next_bit)) [
      | inl wide ↦ rw wide undefined-ne-exhausted
      | inr narrow ↦ elim (Bool-cases (more_bit n piece == 0)) [
        | inl last ↦ rw (narrow, last) (Keeps-refl c h)
        | inr more ↦
            rw (narrow, more)
              (Ends-bind (Progress c) (Kept c) (read n c) _ (read-Ends n c h) (λ v c' p.
                Kept-after c c' _ p.0 (
                  vbr_loop-Ends fuel width n (v % 2 ^ 32) (add_piece width n piece result next_bit)
                    (next_bit + (n - 1)) c' p.0.within
                    (ground (arith, more_bit_pos n piece more)))))
      ]
    ]

vbr_rest-Ends :
    (width n v : ℕ) (c : Cursor)
    → IsWithin c
    → Ends (Kept c) (
        (if ltb 32 n
            then throw undefined
            else if more_bit n (v % 2 ^ 32) == 0
            then pure (v % 2 ^ 32)
            else vbr_loop (suc (suc (bits_left c))) width n (v % 2 ^ 32) 0 0)
          c)
vbr_rest-Ends width n v c h = ground (
  arith,
  undefined-ne-exhausted,
  Keeps-refl c h,
  vbr_loop-Ends (suc (suc (bits_left c))) width n (v % 2 ^ 32) 0 0 c h,
)

-- On a cursor within its buffer a VBR field of any width is read, or fails with a fault of the code,
-- but never for lack of fuel.
pub read_vbr_at-Ends :
    (width n : ℕ) (c : Cursor) → IsWithin c → Ends (Kept c) (read_vbr_at width n c)
unfolding read_vbr_at
read_vbr_at-Ends width n c h =
    Kept-bind c (read n c) _ (Progress-Kept c _ (read-Ends n c h)) (vbr_rest-Ends width n)

pub read_vbr-Ends : (n : ℕ) (c : Cursor) → IsWithin c → Ends (Kept c) (read_vbr n c)
unfolding read_vbr
read_vbr-Ends = read_vbr_at-Ends 32

pub read_vbr64-Ends : (n : ℕ) (c : Cursor) → IsWithin c → Ends (Kept c) (read_vbr64 n c)
unfolding read_vbr64
read_vbr64-Ends = read_vbr_at-Ends 64

read-Kept : (n : ℕ) (c : Cursor) → IsWithin c → Ends (Kept c) (read n c)
read-Kept n c h = Progress-Kept c (read n c) (read-Ends n c h)

fault-ne-exhausted : {e : Fault} → (e ≡ fatal) ⊎ (e ≡ unreachable) → e ≢ exhausted
fault-ne-exhausted h k = ground arith

sized_op-Ends :
    (enc : Encoding) (d : ℕ) (c : Cursor) → IsWithin c → Ends (Kept c) (sized_op enc d c)
sized_op-Ends enc d c h = ground (arith, Keeps-refl c h, fault-ne-exhausted {e = fatal} (inl refl))

sized_encoding-Ends :
    (enc : Encoding) (b : Bool) (c : Cursor)
    → IsWithin c
    → Ends (Kept c) ((if b then (read_vbr64 5 >>= λ d. sized_op enc d) else pure (encoded enc 0)) c)
sized_encoding-Ends enc true c h =
    Kept-bind c (read_vbr64 5 c) _ (read_vbr64-Ends 5 c h) (sized_op-Ends enc)
sized_encoding-Ends enc false c h = Keeps-refl c h

read_encoding-Ends :
    (enc : Option Encoding) (c : Cursor) → IsWithin c → Ends (Kept c) (read_encoding enc c)
unfolding read_encoding
read_encoding-Ends none c h = fault-ne-exhausted (inr refl)
read_encoding-Ends (some enc) c h = sized_encoding-Ends enc (has_encoding_data enc) c h

abbrev_op_rest-Ends :
    (b : Bool) (c : Cursor)
    → IsWithin c
    → Ends (Kept c) (
        (if b
            then (read 3 >>= λ e. read_encoding (encoding_of (e % 2 ^ 8)))
            else (read_vbr64 8 >>= λ v. pure (literal v)))
          c)
abbrev_op_rest-Ends true c h =
    Kept-bind c (read 3 c) _ (read-Kept 3 c h) (λ e c'. read_encoding-Ends _ c')
abbrev_op_rest-Ends false c h =
    Kept-bind c (read_vbr64 8 c) _ (read_vbr64-Ends 8 c h) (λ v c'. Keeps-refl c')

read_abbrev_op-Ends : (c : Cursor) → IsWithin c → Ends (Kept c) (read_abbrev_op c)
unfolding read_abbrev_op
read_abbrev_op-Ends c h =
    Kept-bind c (read 1 c) _ (read-Kept 1 c h) (λ b c'. abbrev_op_rest-Ends (b == 0) c')

read_abbrev_ops-Ends :
    (n : ℕ) (abbv : Abbrev) (c : Cursor) → IsWithin c → Ends (Kept c) (read_abbrev_ops n abbv c)
unfolding read_abbrev_ops
read_abbrev_ops-Ends zero abbv c h = Keeps-refl c h
read_abbrev_ops-Ends (suc n) abbv c h =
    Kept-bind c (read_abbrev_op c) _ (read_abbrev_op-Ends c h)
      (λ op. read_abbrev_ops-Ends n (abbv ++ (op ∷ [])))

add_abbrev-Ends :
    (abbv : Abbrev) (c : Cursor)
    → IsWithin c
    → Ends (Kept c) (
        (if length abbv == 0
            then throw fatal
            else modify (λ c. record c { curr_abbrevs = c.curr_abbrevs ++ (abbv ∷ []) }))
          c)
add_abbrev-Ends [] c h = fault-ne-exhausted (inl refl)
add_abbrev-Ends (op ∷ ops) c h = ground (arith, Keeps-refl c h)

-- On a cursor within its buffer an abbreviation definition is taken in, or fails with a fault of the
-- code, but never for lack of fuel.
pub read_abbrev_record-Ends : (c : Cursor) → IsWithin c → Ends (Kept c) (read_abbrev_record c)
unfolding read_abbrev_record
read_abbrev_record-Ends c h = Kept-bind c (read_vbr 5 c) _ (read_vbr-Ends 5 c h) λ n c1 h1.
    Kept-bind c1 (read_abbrev_ops n [] c1) _ (read_abbrev_ops-Ends n [] c1 h1) add_abbrev-Ends
