-- ===== src/Container/Disasm/Safety.antt =====
-- Which bytes Disassemble of Tools/DilithiumDisasm/DilithiumDisasm.cpp reads to find the bitcode, and
-- which range of them it hands over.
use dilithium.Base.{ℕ, zero, suc, ◌+◌, ◌%◌, ◌^◌, ◌≤◌, ◌<◌, ◌≡◌, refl, arith, ◌⊎◌, inl, inr}
use dilithium.Base.{if◌then◌else◌, ◌==◌, List, length, Option, none, some, All, IsByte}
use dilithium.Base.{Bool-cases, subst, read_le-some, read_le-lt}
use dilithium.Container.{
  is_dxil_container_like, get_dxil_container_part, get_dxil_part_data, is_valid_dxil_program_header,
  get_dxil_program_bitcode, dfcc_container, dfcc_dxil, dfcc_shader_debug_info_dxil, ◌>>=◌,
}
use dilithium.Container.Parts.{IsReadable, is_valid_dxil_container-IsReadable}
use dilithium.Container.Parts.{is_valid_dxil_container-some, le_or_lt}
use dilithium.Container.Programs.{
  is_valid_dxil_program_header-bitcode, is_valid_dxil_program_header-some,
}
use dilithium.Container.Disasm.{
  Located, bitcode, invalid_container, no_dxil, invalid_program, find_part, locate_in_part,
  locate_found, locate_in_container, locate_program, locate_at, locate_bitcode, choose_part,
  to_located,
}

-- The bitcode lies within the first `len` bytes behind `header`.
abbrev pub IsInside : ℕ → Located → Type 0
IsInside len (bitcode start size) = start + size ≤ len
IsInside len invalid_container = Unit {0}
IsInside len no_dxil = Unit {0}
IsInside len invalid_program = Unit {0}

IsInside-mono : {m n : ℕ} (l : Located) → IsInside m l → m ≤ n → IsInside n l
IsInside-mono (bitcode start size) h le = omega arith
IsInside-mono invalid_container h le = tt
IsInside-mono no_dxil h le = tt
IsInside-mono invalid_program h le = tt

-- The search ends without a read outside, at a part that is there.
abbrev Finds : ℕ → Option (Option ℕ) → Type 0
Finds count r = (o : Option ℕ) × (r ≡ some o) × ((k : ℕ) → o ≡ some k → k < count)

find_part-Finds :
    (mem : List ℕ) (header len four_cc n i count : ℕ)
    → (v : IsReadable mem header len) → header + len ≤ length mem
    → count ≡ v.count
    → i + n ≡ count
    → Finds count (find_part mem header four_cc n i)
unfolding find_part get_dxil_container_part
find_part-Finds mem header len four_cc zero i count v room e sum = (none, refl, λ k f. cc)
find_part-Finds mem header len four_cc (suc n) i count v room e sum =
    let (offset, data_size, at_offset, at_size, fits) = v.part i (omega arith) in
    let (cc, at_cc) = read_le-some 4 mem (header + offset) (omega arith) in
    let (o, later, below) =
      find_part-Finds mem header len four_cc n (i + 1) count v room e (omega arith) in
    elim (Bool-cases (cc == four_cc)) [
      | inl hit ↦ (some i, ground (arith, at_offset, at_cc, hit), λ k f. ground arith)
      | inr miss ↦ (o, ground (arith, at_offset, at_cc, miss, later), below)
    ]

-- A result that is there, and inside.
abbrev Locates : ℕ → Option Located → Type 0
Locates len r = (l : Located) × (r ≡ some l) × IsInside len l

-- A program header and what it leads to.
program_Locates :
    (mem : List ℕ) (header len total : ℕ) (other : Located)
    → All IsByte mem
    → len < 2 ^ 32
    → header + len ≤ length mem
    → header + len ≤ total
    → IsInside total other
    → Locates total (
        is_valid_dxil_program_header mem header len >>= λ valid.
        if valid then to_located (get_dxil_program_bitcode mem header) else some other)
program_Locates mem header len total other bytes small room within h =
    let (b, e) = is_valid_dxil_program_header-some mem header len room in
    elim (Bool-cases b) [
      | inr refused ↦ (other, ground (arith, e, refused), h)
      | inl accepted ↦
          let (start, size, found, _, _, fits) =
            is_valid_dxil_program_header-bitcode mem header len bytes small
              (ground (arith, e, accepted)) in
          (bitcode start size, ground (arith, e, accepted, found), omega arith)
    ]

part_Locates :
    (mem : List ℕ) (header len i : ℕ)
    → All IsByte mem
    → (v : IsReadable mem header len) → header + len ≤ length mem
    → i < v.count
    → Locates (header + len) (locate_in_part mem header i)
unfolding locate_in_part get_dxil_container_part get_dxil_part_data
part_Locates mem header len i bytes v room here =
    let (offset, data_size, at_offset, at_size, fits) = v.part i here in
    let small = read_le-lt 4 mem (header + offset + 4) bytes at_size in
    let (l, e, h) =
      program_Locates mem (header + offset + 8) data_size (header + len) invalid_program bytes small
        (omega (arith, fits, v.size_le)) (omega (arith, fits, v.size_le)) tt in
    (l, ground (arith, at_offset, at_size, e), h)

chosen_lt :
    (i count : ℕ) (o : Option ℕ)
    → i < count
    → ((k : ℕ) → o ≡ some k → k < count)
    → choose_part i o < count
chosen_lt i count none h k = h
chosen_lt i count (some j) h k = k j refl

found_Locates :
    (mem : List ℕ) (header len : ℕ) (o : Option ℕ)
    → All IsByte mem
    → (v : IsReadable mem header len) → header + len ≤ length mem
    → ((k : ℕ) → o ≡ some k → k < v.count)
    → Locates (header + len) (locate_found mem header v.count o)
found_Locates mem header len none bytes v room below = (no_dxil, refl, tt)
found_Locates mem header len (some i) bytes v room below =
    let (debug, e, debug_lt) =
      find_part-Finds mem header len dfcc_shader_debug_info_dxil v.count 0 v.count v room refl
        (omega arith) in
    let (l, e', h) =
      part_Locates mem header len (choose_part i debug) bytes v room
        (chosen_lt i v.count debug (below i refl) debug_lt) in
    (l, ground (arith, e, e'), h)

container_Locates :
    (mem : List ℕ) (header len : ℕ)
    → All IsByte mem
    → IsReadable mem header len
    → header + len ≤ length mem
    → Locates (header + len) (locate_in_container mem header)
unfolding locate_in_container
container_Locates mem header len bytes v room =
    let (dxil, e, dxil_lt) =
      find_part-Finds mem header len dfcc_dxil v.count 0 v.count v room refl (omega arith) in
    let (l, e', h) = found_Locates mem header len dxil bytes v room dxil_lt in
    (l, ground (arith, v.count_eq, e, e'), h)

locate_at-Locates :
    (mem : List ℕ) (len : ℕ) (container : Option ℕ)
    → All IsByte mem
    → len < 2 ^ 32
    → len ≤ length mem
    → (container ≡ none) ⊎ (container ≡ some 0)
    → Locates len (locate_at mem len container)
unfolding locate_program
locate_at-Locates mem len none bytes small room h =
    program_Locates mem 0 len len (bitcode 0 len) bytes small (omega arith) (omega arith)
      (omega arith)
locate_at-Locates mem len (some header) bytes small room h =
    let at_start : header ≡ 0 = ground (arith, h) in
    let (b, e) = is_valid_dxil_container-some mem header len (omega arith) in
    elim (Bool-cases b) [
      | inr refused ↦ (invalid_container, ground (arith, e, refused), tt)
      | inl accepted ↦
          let (l, e', h') =
            container_Locates mem header len bytes
              (is_valid_dxil_container-IsReadable mem header len (ground (arith, e, accepted)))
              (omega arith) in
          (l, ground (arith, e, accepted, e'), subst (λ t. IsInside t l) (omega arith) h')
    ]

like_cases :
    (mem : List ℕ) (len : ℕ)
    → len ≤ length mem
    → (o : Option ℕ) × (is_dxil_container_like mem (some 0) len ≡ some o)
      × ((o ≡ none) ⊎ (o ≡ some 0))
unfolding is_dxil_container_like
like_cases mem len room = elim (le_or_lt 4 len) [
  | inr short ↦ (none, ground arith, inl refl)
  | inl here ↦
      let (cc, e) = read_le-some 4 mem 0 (omega arith) in
      elim (Bool-cases (cc == dfcc_container)) [
        | inl hit ↦ (some 0, ground (arith, e, hit), inr refl)
        | inr miss ↦ (none, ground (arith, e, miss), inl refl)
      ]
]

-- For every file the search for the bitcode ends without a read outside the file, and a range of
-- bytes that it hands over lies within the file.
pub locate_bitcode-IsInside :
    (program : List ℕ)
    → All IsByte program
    → (l : Located) × (locate_bitcode program ≡ some l) × IsInside (length program) l
unfolding locate_bitcode
locate_bitcode-IsInside program bytes =
    let len = length program % 2 ^ 32 in
    let (o, like, cases) = like_cases program len (omega arith) in
    let (l, e, h) = locate_at-Locates program len o bytes (omega arith) (omega arith) cases in
    (l, ground (arith, like, e), IsInside-mono l h (omega arith))
