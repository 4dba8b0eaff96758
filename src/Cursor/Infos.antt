-- ===== src/Cursor/Infos.antt =====
-- The block infos of a BitStreamReader: GetBlockInfo and GetOrCreateBlockInfo of
-- Src/BitstreamReader.cpp.
use dilithium.Base.{ℕ, ◌≡◌}
use dilithium.Base.{some, List, get_elem?}
use dilithium.Cursor.State.{BlockInfo}

-- The info at an index is of the block.
abbrev pub IsInfoAt : List BlockInfo → ℕ → ℕ → Type 0
IsInfoAt infos block_id i = (b : BlockInfo) × (get_elem? infos i ≡ some b) × (b.block_id ≡ block_id)
