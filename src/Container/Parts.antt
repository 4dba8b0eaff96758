-- ===== src/Container/Parts.antt =====
-- IsValidDxilContainer of Src/HLSL/DxilContainer.cpp: what it reads, and what it accepts.
use dilithium.Base.{ℕ, zero, suc, ◌+◌, ◌-◌, ◌*◌, ◌^◌, ◌≤◌, ◌<◌, ◌≡◌, refl, arith, ◌⊎◌, inl, inr}
use dilithium.Base.{
  not, min, ◌==◌, Bool, true, false, ◌&&◌, subst, List, length, Option, none, some, if◌then◌else◌,
  leb, read_le-some,
}
use dilithium.Container.{
  is_valid_dxil_container, header_fits, size_fits, table_fits, parts_fit, part_fits, part_offset,
  part_size, part_count, container_size_in_bytes, version_major, header_four_cc,
  container_header_size, part_header_size, container_max_size, container_version_major,
  dfcc_container, ◌>>=◌,
}

pub le_or_lt : (a b : ℕ) → (a ≤ b) ⊎ (b < a)
le_or_lt a b = omega arith

-- Part `k` with its header and its data lies in a container of `size` bytes.
abbrev pub PartWithin : List ℕ → ℕ → ℕ → ℕ → Type 0
PartWithin mem header size k =
    (offset : ℕ) × (data_size : ℕ) × (part_offset mem header k ≡ some offset)
    × (part_size mem (header + offset) ≡ some data_size)
    × (offset + part_header_size + data_size ≤ size)

pub bind-eq-some :
    {A B : Type 0} (m : Option A) (f : A → Option B) {b : B}
    → (m >>= f) ≡ some b
    → (a : A) × (m ≡ some a) × (f a ≡ some b)
bind-eq-some none f e = cc
bind-eq-some (some a) f e = (a, refl, e)

part_fits-within :
    (mem : List ℕ) (header size i : ℕ)
    → part_fits mem header size i ≡ some true
    → PartWithin mem header size i
unfolding part_fits
part_fits-within mem header size i e =
    let (offset, at_offset, rest) = bind-eq-some (part_offset mem header i) _ e in
    let (data_size, at_size, fits) =
      bind-eq-some (part_size mem (header + offset))
        (λ d. some (leb (offset + part_header_size + d) size)) {b = true} (ground (arith, rest)) in
    (offset, data_size, at_offset, at_size, ground (arith, fits))

part_fits-some :
    (mem : List ℕ) (header size i : ℕ)
    → header + size ≤ length mem
    → size < 2 ^ 64
    → 4 * i + 4 + container_header_size ≤ size
    → (b : Bool) × (part_fits mem header size i ≡ some b)
unfolding part_fits
part_fits-some mem header size i room small here =
    let (offset, at_offset) = read_le-some 4 mem (header + 32 + 4 * i) (omega arith) in
    elim (le_or_lt offset (size - 8)) [
      | inr outside ↦ (false, ground (arith, at_offset))
      | inl inside ↦
          let (data_size, at_size) = read_le-some 4 mem (header + offset + 4) (omega arith) in
          (leb (offset + 8 + data_size) size, ground (arith, at_offset, at_size))
    ]

-- All rounds of the loop that go through.
parts_fit-within :
    (mem : List ℕ) (header size n i k : ℕ)
    → parts_fit mem header size n i ≡ some true
    → i ≤ k
    → k < i + n
    → PartWithin mem header size k
unfolding parts_fit
parts_fit-within mem header size zero i k e lo hi = absurd (omega arith)
parts_fit-within mem header size (suc n) i k e lo hi =
    let (b, fits, rest) = bind-eq-some (part_fits mem header size i) _ e in
    elim (le_or_lt k i) [
      | inl here ↦
          let at_k : i ≡ k = omega arith in
          subst (PartWithin mem header size) at_k
            (part_fits-within mem header size i (ground (arith, fits, rest)))
      | inr later ↦
          parts_fit-within mem header size n (i + 1) k (ground (arith, rest)) (omega arith)
            (omega arith)
    ]

parts_fit-some :
    (mem : List ℕ) (header size n i : ℕ)
    → header + size ≤ length mem
    → size < 2 ^ 64
    → 4 * (i + n) + container_header_size ≤ size
    → (b : Bool) × (parts_fit mem header size n i ≡ some b)
unfolding parts_fit
parts_fit-some mem header size zero i room small here = (true, refl)
parts_fit-some mem header size (suc n) i room small here =
    let (b, fits) = part_fits-some mem header size i room small (omega arith) in
    let (rest, ends) = parts_fit-some mem header size n (i + 1) room small (omega arith) in
    (b && rest, ground (arith, fits, ends))

-- What an accepted container promises.
pub record IsReadable (mem : List ℕ) (header len : ℕ) : Type 0 where
  pub size : ℕ
  pub count : ℕ
  pub size_eq : container_size_in_bytes mem header ≡ some size
  pub count_eq : part_count mem header ≡ some count
  pub size_le : size ≤ len
  pub part : (k : ℕ) → k < count → PartWithin mem header size k

table_fits-parts :
    (mem : List ℕ) (header len size : ℕ)
    → container_size_in_bytes mem header ≡ some size
    → size ≤ len
    → table_fits mem header size ≡ some true
    → IsReadable mem header len
unfolding table_fits
table_fits-parts mem header len size size_eq size_le e =
    let (count, count_eq, rest) = bind-eq-some (part_count mem header) _ e in
    record {
      size = size;
      count = count;
      size_eq = size_eq;
      count_eq = count_eq;
      size_le = size_le;
      part = λ k h.
          parts_fit-within mem header size count 0 k (ground (arith, rest)) (omega arith)
            (omega arith);
    }

size_fits-IsReadable :
    (mem : List ℕ) (header len : ℕ)
    → size_fits mem header len ≡ some true
    → IsReadable mem header len
unfolding size_fits
size_fits-IsReadable mem header len e =
    let (size, size_eq, rest) = bind-eq-some (container_size_in_bytes mem header) _ e in
    table_fits-parts mem header len size size_eq (ground (arith, rest)) (ground (arith, rest))

header_fits-size_fits :
    (mem : List ℕ) (header len : ℕ)
    → header_fits mem header len ≡ some true
    → size_fits mem header len ≡ some true
unfolding header_fits
header_fits-size_fits mem header len e =
    let (cc, cc_eq, rest) = bind-eq-some (header_four_cc mem header) _ e in
    let (major, major_eq, rest') =
      bind-eq-some (version_major mem header)
        (λ m. if not (m == container_version_major) then some false else size_fits mem header len)
        {b = true} (ground (arith, rest)) in
    ground (arith, rest')

-- Of an accepted container every part can be read: its size is at most the length given, and the
-- header and the data of each of its parts lie within that size.
pub is_valid_dxil_container-IsReadable :
    (mem : List ℕ) (header len : ℕ)
    → is_valid_dxil_container mem (some header) len ≡ some true
    → IsReadable mem header len
unfolding is_valid_dxil_container
is_valid_dxil_container-IsReadable mem header len e =
    size_fits-IsReadable mem header len (header_fits-size_fits mem header len (ground (arith, e)))

table_fits-some :
    (mem : List ℕ) (header size : ℕ)
    → header + size ≤ length mem
    → header + container_header_size ≤ length mem
    → size < 2 ^ 64
    → (b : Bool) × (table_fits mem header size ≡ some b)
unfolding table_fits
table_fits-some mem header size room here small =
    let (count, count_eq) = read_le-some 4 mem (header + 28) (omega arith) in
    elim (le_or_lt (4 * count + container_header_size) size) [
      | inr outside ↦ (false, ground (arith, count_eq))
      | inl inside ↦
          let (b, e) = parts_fit-some mem header size count 0 room small (omega arith) in
          (b, ground (arith, count_eq, e))
    ]

size_fits-some :
    (mem : List ℕ) (header len : ℕ)
    → header + len ≤ length mem
    → header + container_header_size ≤ length mem
    → (b : Bool) × (size_fits mem header len ≡ some b)
unfolding size_fits
size_fits-some mem header len room here =
    let (size, size_eq) = read_le-some 4 mem (header + 24) (omega arith) in
    elim (le_or_lt size (min len container_max_size)) [
      | inr outside ↦ (false, ground (arith, size_eq))
      | inl inside ↦
          let (b, e) = table_fits-some mem header size (omega arith) here (omega arith) in
          (b, ground (arith, size_eq, e))
    ]

header_fits-some :
    (mem : List ℕ) (header len : ℕ)
    → header + len ≤ length mem
    → container_header_size ≤ len
    → (b : Bool) × (header_fits mem header len ≡ some b)
unfolding header_fits
header_fits-some mem header len room here =
    let (cc, cc_eq) = read_le-some 4 mem header (omega arith) in
    let (major, major_eq) = read_le-some 2 mem (header + 20) (omega arith) in
    let (b, e) = size_fits-some mem header len room (omega arith) in
    (
      not (not (cc == dfcc_container)) && not (not (major == container_version_major)) && b,
      ground (arith, cc_eq, major_eq, e),
    )

-- The validator reads nothing outside the `len` bytes it is given, whatever they hold.
pub is_valid_dxil_container-some :
    (mem : List ℕ) (header len : ℕ)
    → header + len ≤ length mem
    → (b : Bool) × (is_valid_dxil_container mem (some header) len ≡ some b)
unfolding is_valid_dxil_container
is_valid_dxil_container-some mem header len room = elim (le_or_lt container_header_size len) [
  | inr short ↦ (false, ground arith)
  | inl here ↦ let (b, e) = header_fits-some mem header len room here in (b, ground (arith, e))
]
