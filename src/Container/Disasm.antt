-- ===== src/Container/Disasm.antt =====
-- Disassemble of Tools/DilithiumDisasm/DilithiumDisasm.cpp up to the call of LoadLLVMModule: which
-- bytes of the program are taken for the bitcode. What it prints of other parts is left out.
pub mod Safety
use dilithium.Base.{ℕ, zero, suc, ◌+◌, ◌%◌, ◌^◌, Bool, true, false, if◌then◌else◌, ◌==◌}
use dilithium.Base.{Option, none, some, List, length}
use dilithium.Container.{
  is_dxil_container_like, is_valid_dxil_container, part_count, part_four_cc, part_size,
  get_dxil_container_part, get_dxil_part_data, is_valid_dxil_program_header,
  get_dxil_program_bitcode, dfcc_dxil, dfcc_shader_debug_info_dxil, ◌>>=◌,
}

-- The three errors are thrown by TERROR.
pub data Located : Type 0 where
  bitcode : ℕ → ℕ → Located
  invalid_container no_dxil invalid_program : Located

-- The first of the `n` parts from `i` on that has the code.
unfoldable pub find_part : List ℕ → ℕ → ℕ → ℕ → ℕ → Option (Option ℕ)
find_part mem header four_cc zero i = some none
find_part mem header four_cc (suc n) i =
    (get_dxil_container_part mem header i >>= λ part. part_four_cc mem part) >>= λ cc.
    elim (cc == four_cc) [ true ↦ some (some i) | false ↦ find_part mem header four_cc n (i + 1) ]

-- GetDxilProgramBitcode into `il` and `il_length`.
abbrev pub to_located : Option (ℕ × ℕ) → Option Located
to_located r = r >>= λ p. some (bitcode p.0 p.1)

-- The program in part `i`.
unfoldable pub locate_in_part : List ℕ → ℕ → ℕ → Option Located
locate_in_part mem header i = do
  part ← get_dxil_container_part mem header i
  size ← part_size mem part
  valid ← is_valid_dxil_program_header mem (get_dxil_part_data part) size
  if valid
      then to_located (get_dxil_program_bitcode mem (get_dxil_part_data part))
      else some invalid_program

-- A debug part replaces the DXIL part.
abbrev pub choose_part : ℕ → Option ℕ → ℕ
choose_part i none = i
choose_part i (some j) = j

abbrev pub locate_found : List ℕ → ℕ → ℕ → Option ℕ → Option Located
locate_found mem header count none = some no_dxil
locate_found mem header count (some i) = do
  debug ← find_part mem header dfcc_shader_debug_info_dxil count 0
  locate_in_part mem header (choose_part i debug)

unfoldable pub locate_in_container : List ℕ → ℕ → Option Located
locate_in_container mem header = do
  count ← part_count mem header
  dxil ← find_part mem header dfcc_dxil count 0
  locate_found mem header count dxil

-- A file that is no container is a program, or bitcode as a whole.
unfoldable pub locate_program : List ℕ → ℕ → Option Located
locate_program mem len = do
  valid ← is_valid_dxil_program_header mem 0 len
  if valid then to_located (get_dxil_program_bitcode mem 0) else some (bitcode 0 len)

abbrev pub locate_at : List ℕ → ℕ → Option ℕ → Option Located
locate_at mem len none = locate_program mem len
locate_at mem len (some header) = do
  valid ← is_valid_dxil_container mem (some header) len
  if valid then locate_in_container mem header else some invalid_container

-- `il_length` is a uint32_t.
unfoldable pub locate_bitcode : List ℕ → Option Located
locate_bitcode program = do
  let len = length program % 2 ^ 32
  container ← is_dxil_container_like program (some 0) len
  locate_at program len container
