-- ===== src/Lib.antt =====
-- A verification library for Dilithium, a reader of DXIL: HLSL shaders compiled to LLVM bitcode in
-- a container.
--
-- The parts of the program and how they interact: Tools/DilithiumDisasm finds the bitcode in a file
-- by the validators of Src/HLSL/DxilContainer.cpp and hands it to Src/BitcodeReader.cpp, which
-- reads it through a bitstream cursor (Src/BitstreamReader.cpp) over a memory stream
-- (Src/MemStreamBuf.cpp) and builds the IR, whose values know their uses and their users
-- (Src/Use.cpp, Src/Value.cpp) and whose constants are integers of a width (Src/MPInt.cpp); the
-- tables of Src/HLSL, the layout of data (Src/DataLayout.cpp) and the 16-bit floats (Src/Half.cpp)
-- serve the IR and its printer.
--
-- Which file models which part:
--   Base: what the modules share, native numbers, lists by native indices, little-endian bytes
--     (le_value, read_le) and the bits of a number (slice).
--   Stream: Src/MemStreamBuf.cpp, one function for each virtual function, and the std::istream over
--     it as far as the cursor uses it: read with gcount, tellg and seekg, with eofbit and failbit.
--   BitCode: Include/Dilithium/BitCodes.hpp, the fixed codes, abbreviation operands and Char6.
--   Cursor: Include/Dilithium/BitstreamReader.hpp and Src/BitstreamReader.cpp. A method is a
--     function from the cursor to its result and the new cursor, or to a fault (State). Word has
--     Read, FillCurrWord, AtEndOfStream, JumpToBit and SkipToFourByteBoundary; Vbr has ReadVBR and
--     ReadVBR64; Abbrev has abbreviated fields and ReadAbbrevRecord; Record has ReadRecord; Block
--     has the block infos, EnterSubBlock, ReadBlockEnd and SkipBlock; Entry has Advance,
--     AdvanceSkippingSubblocks and ReadBlockInfoBlock. The proofs: Sound and Reads for the bits
--     that Read answers, VbrFormat, VbrReads and VbrRoundTrip for VBR fields, RecordReads for
--     records without an abbreviation, Ends, Loops and Entries for termination, Scope, Blocks and
--     Nesting for what the operations leave alone and restore, Infos for the block infos.
--   Container: Src/HLSL/DxilContainer.cpp over a memory of bytes in which a pointer is an offset
--     and a read outside is `none`; Container.Disasm: Disassemble of
--     Tools/DilithiumDisasm/DilithiumDisasm.cpp up to the call of LoadLLVMModule.
--   Types: Src/Type.cpp and Src/DerivedType.cpp, the classes of types as one data type and the Get
--     functions; the hashes by which the context finds function types are a parameter.
--   BitcodeReader: the wrapper of a bitcode file in Src/BitcodeReader.cpp; in Values the decoding of
--     the numbers and flags of its records, with Signed and Linkage for them; in TypeTable its
--     ParseTypeTable, the records one function each, Parse with the switch and the loop over the
--     cursor. An error is a message of Parsed, a fault of the code below it one of Cursor. Denotes
--     has the rules for what a record stands for, Gives what a result ensures, Lookups and Entering
--     the list of types while it is filled, Sound and Reading the types that are read, Complete that
--     records by the rules are read, Valid the types, Visited the operands that a loop with a counter
--     of 32 bits goes through, and Supplied and Read the records that a cursor reads.
--   Half: Src/Half.cpp on bit patterns.
--   Layout: StructLayout of Src/DataLayout.cpp.
--   DataLayout: the alignments and pointers of Src/DataLayout.cpp as two lists, an exception as a
--     value of Result. Words has Split, ToInt and InBytes, Specifier ParseSpecifier and Reset, and
--     Sizes the sizes and alignments of types, without the assertion that they are sized and the
--     cache of struct layouts; in it Matches and Closest for the loop of AlignmentInfo. The other
--     proofs: Outcomes for what a result ensures, Splits for texts and numbers, Tables, Pointers,
--     Alignments and Entering for the two tables, WellFormed, Parses and Starting for the parser.
--   MpInt: Src/MPInt.cpp, a record of a width and a value; Updates has the compound assignments,
--     Text has FromString and ToString. The proofs: Laws, Modular, Widths and Shifts for the operators,
--     Numerals for the digits of a text.
--   Uses: InitTags and GetImpliedUser of Src/Use.cpp over a memory of tags; in Sort the SortUseList
--     of Src/Value.cpp over lists; in Store the Set, AddToList and RemoveFromList of Src/Use.cpp over
--     a store of links. The proofs: Count and Implied for the tags, Sorted for the lists, Chains,
--     Unlinked, Without, Stored, Sets and Moved for the store.
--   Hlsl: Src/HLSL/DxilShaderModel.cpp, DxilCompType.cpp, DxilInterpolationMode.cpp,
--     DxilSigPoint.cpp (SigPoint, its table of interpretations in Interpretation) and
--     DxilSemantic.cpp (Semantic).
--
-- Bounds and fuel: size_t has 64 bits, and each sum or product that the source computes in 32 or
-- 64 bits is taken modulo that power of two. The loop of a VBR field runs on fuel of the bits
-- left in the stream and two, Advance on the bits left and one: a round takes a bit or ends the
-- loop, so that this is enough. AdvanceSkippingSubblocks and ReadBlockInfoBlock, whose rounds
-- can also jump in the stream, run on the same fuel, and end in the fault `exhausted` if it is
-- not enough. The loops of ParseSpecifier run on a round for each byte of the text,
-- GetImpliedUser on a step for each use, both enough; ParseTypeTable on fuel that is an
-- argument, one round for each record and one for the end, and IsSized on fuel, where a struct
-- goes on with itself; ToString on 65 digits for 64 bits, Splat on 7 rounds
-- for 6 doublings. Other loops are recursion on a count or a list.
--
-- Not modelled: the values, instructions and modules of the IR and the parts of the bitcode
-- reader that build them, std::bad_alloc, the printers, metadata, MPFloat and the bit counts of
-- MPInt, which are intrinsics of the compiler, the comparison of two DataLayouts, the pointers
-- in SortUseList (and its assertion on 2 ^ 32 uses), float arithmetic, and the moves of objects.
-- A failed assertion, ReportFatalError, DILITHIUM_UNREACHABLE and undefined behaviour are faults
-- of the cursor's outcomes.
pub mod Base
pub mod Stream
pub mod BitCode
pub mod Cursor
pub mod Container
pub mod Half
pub mod Layout
pub mod Hlsl
pub mod MpInt
pub mod Uses
pub mod Types
pub mod DataLayout
pub mod BitcodeReader
