-- ===== src/Cursor.antt =====
-- The bitstream cursor: Include/Dilithium/BitstreamReader.hpp and Src/BitstreamReader.cpp.
pub mod State
pub mod Word
pub mod Vbr
pub mod Abbrev
pub mod Record
pub mod Block
pub mod Entry
pub mod Masks
pub mod Sound
pub mod Reads
pub mod Ends
pub mod Loops
pub mod Entries
pub mod VbrFormat
pub mod VbrReads
pub mod VbrRoundTrip
pub mod Starts
pub mod RecordReads
pub mod Scope
pub mod Infos
pub mod Blocks
pub mod Nesting
mod BlockTests
mod Tests
