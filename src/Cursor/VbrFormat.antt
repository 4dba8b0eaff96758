-- ===== src/Cursor/VbrFormat.antt =====
-- ReadVBR and ReadVBR64 of Src/BitstreamReader.cpp against the format that they read: a number as
-- chunks of `n` bits, the lowest first, with the top bit set on all but the last.
use dilithium.Base.{
  ℕ, zero, suc, ◌+◌, ◌-◌, ◌*◌, ◌/◌, ◌%◌, ◌^◌, ◌≤◌, ◌<◌, ◌≡◌, refl, ap, arith, inl, inr,
}
use dilithium.Base.{bit_and, bit_and_mask, bit_and_bit, bit_or_fields, two_pow-add, two_pow_pos}
use dilithium.Base.{List, [], ◌∷◌, if◌then◌else◌, ltb}
use native.Mathlib.Nat.{
  mul_comm, mod-eq_of_lt, mod-lt, div-add-mod, div-eq_of_lt, div-eq_of_lt-le, pow-le-pow_right,
  mul-le-mul_right,
}
use dilithium.Cursor.Vbr.{add_piece}
use dilithium.Cursor.Sound.{bits_at, le_or_lt}

-- The chunks of `v`, with `k` bits of it in each. `suc j` chunks are enough below 2 ^ (k * suc j).
unfoldable pub vbr_chunks : ℕ → ℕ → ℕ → List ℕ
vbr_chunks zero k v = v ∷ []
vbr_chunks (suc j) k v =
    let rest = vbr_chunks j k (v / 2 ^ k) in
    if ltb v (2 ^ k) then v ∷ [] else (v % 2 ^ k + 2 ^ k) ∷ rest

-- The chunks stand in the bytes, `n` bits each, from bit `p` on.
abbrev pub IsStored : List ℕ → ℕ → ℕ → List ℕ → Type 0
IsStored bytes n p [] = Unit {0}
IsStored bytes n p (x ∷ xs) = (bits_at bytes p n ≡ x) × IsStored bytes n (p + n) xs

-- The bit that a chunk below 2 ^ k has not, and an inner chunk has.
pub last_chunk : (k w : ℕ) → w < 2 ^ k → bit_and w (2 ^ k) ≡ 0
last_chunk k w h = rw (bit_and_bit k w, div-eq_of_lt h) (omega arith)

one_above : (k r : ℕ) → r < 2 ^ k → (r + 2 ^ k) / 2 ^ k ≡ 1
one_above k r h = div-eq_of_lt-le (2 ^ k) (omega arith) (omega arith)

pub inner_chunk : (k r : ℕ) → r < 2 ^ k → bit_and (r + 2 ^ k) (2 ^ k) ≡ 2 ^ k
inner_chunk k r h = rw (bit_and_bit k (r + 2 ^ k), one_above k r h) (omega arith)

-- A chunk's bits go above the `nb` bits that are read.
pub add_piece-eq :
    (width n piece result nb : ℕ)
    → result < 2 ^ nb
    → piece % 2 ^ (n - 1) * 2 ^ nb < 2 ^ width
    → add_piece width n piece result nb ≡ result + piece % 2 ^ (n - 1) * 2 ^ nb
add_piece-eq width n piece result nb low fits =
    rw (bit_and_mask (n - 1) piece, mod-eq_of_lt fits)
      (bit_or_fields nb result (piece % 2 ^ (n - 1)) low)

-- The arithmetic of one inner round: `r` is the low chunk, `q` the rest, `K` its weight.
below_mul : (x r a b : ℕ) → x < b → r < a → x + r * b < a * b
below_mul x r a b hx hr = omega (arith, mul-le-mul_right b hr)

-- The value so far fits in the bits so far.
pub next_low : (k w result nb : ℕ) → result < 2 ^ nb → result + w % 2 ^ k * 2 ^ nb < 2 ^ (nb + k)
next_low k w result nb h =
    rw (two_pow-add nb k, mul_comm (2 ^ nb) (2 ^ k))
      (below_mul result (w % 2 ^ k) (2 ^ k) (2 ^ nb) h (mod-lt w (two_pow_pos k)))

-- And the value to come is the same.
pub next_sum :
    (k w result nb : ℕ)
    → result + w % 2 ^ k * 2 ^ nb + w / 2 ^ k * 2 ^ (nb + k) ≡ result + w * 2 ^ nb
next_sum k w result nb = omega (
  arith,
  ap (λ (t : ℕ). w / 2 ^ k * t) (two_pow-add nb k),
  ap (λ (t : ℕ). t * 2 ^ nb) (div-add-mod w (2 ^ k)),
)

pub lt_of_two_pow-lt : (a b : ℕ) → 2 ^ a < 2 ^ b → a < b
lt_of_two_pow-lt a b h = elim (le_or_lt b a) [
  | inl le ↦ absurd (omega (arith, pow-le-pow_right {n = 2} (omega arith) le))
  | inr lt ↦ lt
]

-- The first chunk and the others.
unfoldable pub head_chunk : ℕ → ℕ → ℕ → ℕ
head_chunk zero k w = w
head_chunk (suc j) k w = if ltb w (2 ^ k) then w else w % 2 ^ k + 2 ^ k

unfoldable pub tail_chunks : ℕ → ℕ → ℕ → List ℕ
tail_chunks zero k w = []
tail_chunks (suc j) k w = if ltb w (2 ^ k) then [] else vbr_chunks j k (w / 2 ^ k)

pub vbr_chunks-cons : (j k w : ℕ) → vbr_chunks j k w ≡ head_chunk j k w ∷ tail_chunks j k w
unfolding vbr_chunks head_chunk tail_chunks
vbr_chunks-cons zero k w = refl
vbr_chunks-cons (suc j) k w = ground arith

pub small_chunk : (j k w : ℕ) → w < 2 ^ k → (head_chunk j k w ≡ w) × (tail_chunks j k w ≡ [])
unfolding head_chunk tail_chunks
small_chunk zero k w h = (refl, refl)
small_chunk (suc j) k w h = (ground arith, ground arith)

pub large_chunk :
    (j k w : ℕ)
    → 2 ^ k ≤ w
    → (head_chunk (suc j) k w ≡ w % 2 ^ k + 2 ^ k)
      × (tail_chunks (suc j) k w ≡ head_chunk j k (w / 2 ^ k) ∷ tail_chunks j k (w / 2 ^ k))
unfolding tail_chunks head_chunk
large_chunk j k w h = (ground arith, ground (arith, vbr_chunks-cons j k (w / 2 ^ k)))

pub head_chunk-lt : (j k w : ℕ) → k ≤ 31 → w < 2 ^ (k * suc j) → head_chunk j k w < 2 ^ 32
unfolding head_chunk
head_chunk-lt zero k w h small =
    let one : k * 1 ≡ k = omega arith in
    omega
      (arith, ap (λ (t : ℕ). 2 ^ t) one, pow-le-pow_right {n = 2} (omega arith) {i = k} {j = 31} h)
head_chunk-lt (suc j) k w h small =
    ground
      (arith, mod-lt w (two_pow_pos k), pow-le-pow_right {n = 2} (omega arith) {i = k} {j = 31} h)
