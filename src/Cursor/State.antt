-- ===== src/Cursor/State.antt =====
-- Include/Dilithium/BitstreamReader.hpp: the reader, the cursor over it, and how a call ends.
-- `size_t`, and so `word_t`, has 64 bits.
use dilithium.Base.{ℕ, ◌+◌, ◌-◌, ◌*◌, ◌%◌, ◌^◌, Bool, true, false, ◌||◌, ltb, ◌==◌}
use dilithium.Base.{List, [], length, if◌then◌else◌}
use dilithium.Stream.{IStream, open_stream}
use dilithium.BitCode.{Abbrev}

-- `fatal` is ReportFatalError, `assertion` a BOOST_ASSERT that fails, `unreachable` is
-- DILITHIUM_UNREACHABLE, and `undefined` what C++ leaves undefined (a shift by the width of a type
-- or more, a pointer outside its buffer). `exhausted` is no outcome of the code: a loop of the
-- model ran out of fuel.
pub data Fault : Type 0 where
  fatal assertion unreachable undefined exhausted : Fault

pub data Outcome {ℓ} (A : Type ℓ) : Type ℓ where
  ok : A → Outcome A
  fail : Fault → Outcome A

-- BitStreamReader::BlockInfo. `name` and `record_names` are never written.
pub record BlockInfo : Type 0 where
  pub block_id : ℕ
  pub abbrevs : List Abbrev

-- BitStreamReader. The buffer of the stream is [bitcode_begin_, bitcode_begin_ + bitcode_size_).
pub record Reader : Type 0 where
  pub stream : IStream
  pub block_infos : List BlockInfo

-- The constructor on a range of bytes asserts that it has whole 32-bit words.
unfoldable pub new_reader : List ℕ → Outcome Reader
unfolding open_stream
new_reader bytes =
    if length bytes % 4 == 0
    then ok (record { stream = open_stream bytes; block_infos = [] })
    else fail assertion

-- BitStreamCursor::Block
pub record Block : Type 0 where
  pub prev_code_size : ℕ
  pub prev_abbrevs : List Abbrev

-- BitStreamCursor, with the reader that `bit_stream_` points to. The innermost block comes first
-- in `block_scope`.
pub record Cursor : Type 0 where
  pub reader : Reader
  pub next_char : ℕ
  pub size : ℕ
  pub curr_word : ℕ
  pub bits_in_curr_word : ℕ
  pub curr_code_size : ℕ
  pub curr_abbrevs : List Abbrev
  pub block_scope : List Block

-- The constructor leaves `curr_word_` as it was.
unfoldable pub init : Reader → ℕ → Cursor
init r indeterminate = record {
  reader = r;
  next_char = 0;
  size = 0;
  curr_word = indeterminate;
  bits_in_curr_word = 0;
  curr_code_size = 2;
  curr_abbrevs = [];
  block_scope = [];
}

abbrev pub source : Cursor → List ℕ
source c = c.reader.stream.buf.bytes

-- bitcode_size_, a uint32_t.
unfoldable pub bitcode_size : Cursor → ℕ
bitcode_size c = length (source c) % 2 ^ 32

unfoldable pub can_skip_to_pos : Cursor → ℕ → Bool
unfolding bitcode_size
can_skip_to_pos c p = p == 0 || ltb (p - 1) (bitcode_size c)

-- next_char_ * CHAR_BIT - bits_in_curr_word_, in 64 bits.
unfoldable pub curr_bit_no : Cursor → ℕ
curr_bit_no c = (c.next_char * 8 + 2 ^ 64 - c.bits_in_curr_word) % 2 ^ 64

-- A method of the cursor: its new state and its result, or how it failed.
abbrev pub M : Type 0 → Type 0
M A = Cursor → Outcome (A × Cursor)

abbrev pub pure : {A : Type 0} → A → M A
pure a c = ok (a, c)

abbrev pub throw : {A : Type 0} → Fault → M A
throw e c = fail e

infixl 5 ◌>>=◌ ◌>>◌
abbrev pub ◌>>=◌ : {A B : Type 0} → M A → (A → M B) → M B
◌>>=◌ m f c = elim (m c) [ ok (a, c') ↦ f a c' | fail e ↦ fail e ]

abbrev pub ◌>>◌ : {A B : Type 0} → M A → M B → M B
m >> k = m >>= λ _. k

abbrev pub get : M Cursor
get c = ok (c, c)

abbrev pub modify : (Cursor → Cursor) → M (Unit {0})
modify f c = ok (tt, f c)

abbrev pub asserting : Bool → M (Unit {0})
asserting true = pure tt
asserting false = throw assertion
