-- ===== src/Base/Bytes.antt =====
-- Bytes as numbers, the lowest byte first.
use Prim.Native.Nat.{ℕ, zero, suc, ◌+◌, ◌*◌, ◌/◌, ◌%◌, ◌^◌, ◌≤◌, ◌<◌}
use mathlib.Core.Path.{◌≡◌, ap, sym, ◌∙◌}
use mathlib.Core.List.{List, [], ◌∷◌}
use mathlib.Core.Option.{Option, none, some}
use native.Mathlib.Nat.{div-div-eq-div-mul, zero-div, zero-mod}
use native.Mathlib.Omega.{arith}
use dilithium.Base.Tests.{if◌then◌else◌, leb}
use dilithium.Base.Lists.{All, length, take, drop, length-take, length-drop}
use dilithium.Base.Powers.{two_pow-add, mod-mul, slice}

-- The number that bytes stand for, the lowest first: little_to_native of a word padded with zeros.
unfoldable pub le_value : List ℕ → ℕ
le_value [] = 0
le_value (b ∷ bs) = b + 256 * le_value bs

abbrev pub IsByte : ℕ → Type 0
IsByte b = b < 256

eight_times : (n : ℕ) → 2 ^ (8 * suc n) ≡ 256 * 2 ^ (8 * n)
eight_times n =
    let e : 8 * suc n ≡ 8 + 8 * n = omega arith in ap (λ (t : ℕ). 2 ^ t) e ∙ two_pow-add 8 (8 * n)

pub le_value-lt : (xs : List ℕ) → All IsByte xs → le_value xs < 2 ^ (8 * length xs)
unfolding le_value
le_value-lt [] h = omega arith
le_value-lt (x ∷ xs) h = omega (arith, eight_times (length xs), le_value-lt xs h.1)

byte-div : (x v : ℕ) → x < 256 → (x + 256 * v) / 256 ≡ v
byte-div x v h = omega arith

-- Without its first `n` bytes a number loses its `8 * n` low bits.
pub le_value-drop :
    (n : ℕ) (xs : List ℕ) → All IsByte xs → le_value (drop n xs) ≡ le_value xs / 2 ^ (8 * n)
unfolding le_value
le_value-drop zero xs h = omega arith
le_value-drop (suc n) [] h = sym (zero-div (2 ^ (8 * suc n)))
le_value-drop (suc n) (x ∷ xs) h =
    rw
      (
        eight_times n,
        ← div-div-eq-div-mul (x + 256 * le_value xs) 256 (2 ^ (8 * n)),
        byte-div x (le_value xs) h.0,
      )
      (le_value-drop n xs h.1)

-- The first `n` bytes are the `8 * n` low bits.
pub le_value-take :
    (n : ℕ) (xs : List ℕ) → All IsByte xs → le_value (take n xs) ≡ le_value xs % 2 ^ (8 * n)
unfolding le_value
le_value-take zero xs h = omega arith
le_value-take (suc n) [] h = sym (zero-mod (2 ^ (8 * suc n)))
le_value-take (suc n) (x ∷ xs) h =
    rw
      (
        eight_times n,
        mod-mul (x + 256 * le_value xs) 256 (2 ^ (8 * n)),
        byte-div x (le_value xs) h.0,
        le_value-take n xs h.1,
      )
      (omega (arith, h.0))

pub All-drop {ℓ κ} :
    {A : Type ℓ} (P : A → Type κ) (n : ℕ) (xs : List A) → All P xs → All P (drop n xs)
All-drop P zero xs h = h
All-drop P (suc n) [] h = h
All-drop P (suc n) (x ∷ xs) h = All-drop P n xs h.1

-- `n` bytes from byte `i` on.
pub le_value-slice :
    (i n : ℕ) (xs : List ℕ)
    → All IsByte xs
    → le_value (take n (drop i xs)) ≡ slice (le_value xs) (8 * i) (8 * n)
unfolding slice
le_value-slice i n xs h =
    le_value-take n (drop i xs) (All-drop IsByte i xs h)
    ∙ ap (λ (t : ℕ). t % 2 ^ (8 * n)) (le_value-drop i xs h)

-- An unsigned number of `n` bytes at byte `i` of a memory; `none` is a read outside it.
unfoldable pub read_le : ℕ → List ℕ → ℕ → Option ℕ
unfolding le_value
read_le n mem i = if leb (i + n) (length mem) then some (le_value (take n (drop i mem))) else none

-- A read inside the memory has a value.
pub read_le-some :
    (n : ℕ) (mem : List ℕ) (i : ℕ) → i + n ≤ length mem → (v : ℕ) × (read_le n mem i ≡ some v)
unfolding read_le
read_le-some n mem i h = (le_value (take n (drop i mem)), ground arith)

pub read_le-within :
    (n : ℕ) (mem : List ℕ) (i : ℕ) {v : ℕ} → read_le n mem i ≡ some v → i + n ≤ length mem
unfolding read_le
read_le-within n mem i e = ground arith

pub All-take {ℓ κ} :
    {A : Type ℓ} (P : A → Type κ) (n : ℕ) (xs : List A) → All P xs → All P (take n xs)
All-take P zero xs h = tt
All-take P (suc n) [] h = tt
All-take P (suc n) (x ∷ xs) h = (h.0, All-take P n xs h.1)

-- Four bytes make a number below 2 ^ 32.
pub read_le-lt :
    (n : ℕ) (mem : List ℕ) (i : ℕ) {v : ℕ}
    → All IsByte mem
    → read_le n mem i ≡ some v
    → v < 2 ^ (8 * n)
unfolding read_le
read_le-lt n mem i {v} b e = ground (
  arith,
  le_value-lt (take n (drop i mem)) (All-take IsByte n _ (All-drop IsByte i mem b)),
  length-take n (drop i mem),
  length-drop i mem,
)
