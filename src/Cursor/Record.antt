-- ===== src/Cursor/Record.antt =====
-- Src/BitstreamReader.cpp: ReadRecord.
use dilithium.Base.{ℕ, zero, suc, ◌+◌, ◌*◌, ◌/◌, ◌%◌, ◌^◌}
use dilithium.Base.{Bool, true, false, if◌then◌else◌, leb, ◌==◌}
use dilithium.Base.{List, [], ◌∷◌, ◌++◌, length, take, drop, replicate}
use dilithium.Stream.{seekg_end, tellg}
use dilithium.BitCode.{Encoding, fixed, vbr, array, char6, blob}
use dilithium.BitCode.{AbbrevOp, literal, encoded, Abbrev, unabbrev_record_id}
use dilithium.Cursor.State.{M, ◌>>=◌, ◌>>◌, pure, throw, get, ok, fail}
use dilithium.Cursor.State.{fatal, assertion, undefined, source, can_skip_to_pos, curr_bit_no}
use dilithium.Cursor.Word.{jump_to_bit, skip_to_four_byte_boundary}
use dilithium.Cursor.Vbr.{read_vbr, read_vbr64}
use dilithium.Cursor.Abbrev.{read_abbreviated_field, get_abbrev}

-- `n` times: push what `m` reads.
unfoldable pub read_many : ℕ → M ℕ → List ℕ → M (List ℕ)
read_many zero m vals = pure vals
read_many (suc n) m vals = do v ← m; read_many n m (vals ++ (v ∷ []))

abbrev pub is_array_or_blob : Encoding → Bool
is_array_or_blob array = true
is_array_or_blob blob = true
is_array_or_blob fixed = false
is_array_or_blob vbr = false
is_array_or_blob char6 = false

-- The elements of an array operand, whose element type `ops` must hold and end with.
unfoldable pub read_array : Abbrev → List ℕ → M (List ℕ)
unfolding read_many
read_array (literal v ∷ []) vals = read_vbr 6 >> throw fatal
read_array (encoded e d ∷ []) vals = do
  num_elems ← read_vbr 6
  if is_array_or_blob e
      then throw fatal
      else read_many num_elems (read_abbreviated_field (encoded e d)) vals
read_array _ vals = read_vbr 6 >> throw fatal

-- The position behind a blob of `num_elems` bytes: the byte count is rounded up and made bits in
-- uint32_t, the sum is a size_t.
abbrev pub blob_end : ℕ → ℕ → ℕ
blob_end bit_pos num_elems = (bit_pos + (num_elems + 3) % 2 ^ 32 / 4 * 4 * 8 % 2 ^ 32) % 2 ^ 64

-- seekg(0, std::ios_base::end), and next_char_ from tellg().
unfoldable pub seek_end : M (Unit {0})
seek_end c =
    let (at_char, s) = tellg (seekg_end c.reader.stream) in
    ok (tt, record c { reader = record c.reader { stream = s }; next_char = at_char })

-- `num_elems` bytes from the start of the buffer plus `byte_no`, which must not pass its end.
unfoldable pub copy_bytes : ℕ → ℕ → M (List ℕ)
copy_bytes byte_no num_elems c =
    if leb (byte_no + num_elems) (length (source c))
    then ok (take num_elems (drop byte_no (source c)), c)
    else fail undefined

-- A blob operand. `false` is the `break`: no operand after it is read.
unfoldable pub read_blob : List ℕ → M (Bool × List ℕ)
unfolding seek_end copy_bytes
read_blob vals = do
  num_elems ← read_vbr 6
  skip_to_four_byte_boundary
  c ← get
  let bit_pos = curr_bit_no c
  let new_end = blob_end bit_pos num_elems
  if can_skip_to_pos c (new_end / 8)
      then (do
        got ← copy_bytes (bit_pos / 8) num_elems
        jump_to_bit new_end
        pure (true, vals ++ got))
      else (do seek_end; pure (false, vals ++ replicate num_elems 0))

-- The loop over the operands behind the first.
unfoldable pub read_operands : Abbrev → List ℕ → M (List ℕ)
unfolding read_array read_blob
read_operands [] vals = pure vals
read_operands (literal v ∷ ops) vals = read_operands ops (vals ++ (v ∷ []))
read_operands (encoded array d ∷ ops) vals = read_array ops vals
read_operands (encoded blob d ∷ ops) vals =
    read_blob vals >>= λ r c. elim r.0 [ true ↦ read_operands ops r.1 c | false ↦ ok (r.1, c) ]
read_operands (encoded fixed d ∷ ops) vals = do
  v ← read_abbreviated_field (encoded fixed d)
  read_operands ops (vals ++ (v ∷ []))
read_operands (encoded vbr d ∷ ops) vals = do
  v ← read_abbreviated_field (encoded vbr d)
  read_operands ops (vals ++ (v ∷ []))
read_operands (encoded char6 d ∷ ops) vals = do
  v ← read_abbreviated_field (encoded char6 d)
  read_operands ops (vals ++ (v ∷ []))

-- The record code, which the first operand of an abbreviation gives.
unfoldable pub read_code_op : AbbrevOp → M ℕ
read_code_op (literal v) = pure (v % 2 ^ 32)
read_code_op (encoded e d) =
    if is_array_or_blob e
    then throw fatal
    else (do v ← read_abbreviated_field (encoded e d); pure (v % 2 ^ 32))

unfoldable pub read_abbreviated : Abbrev → List ℕ → M (ℕ × List ℕ)
unfolding read_operands read_code_op
read_abbreviated [] vals = throw assertion
read_abbreviated (op ∷ ops) vals = do
  code ← read_code_op op
  vals' ← read_operands ops vals
  pure (code, vals')

-- The code of the record, and `vals` with its operands pushed.
unfoldable pub read_record : ℕ → List ℕ → M (ℕ × List ℕ)
unfolding read_abbreviated read_many
read_record abbrev_id vals =
    if abbrev_id == unabbrev_record_id
    then (do
      code ← read_vbr 6
      num_elems ← read_vbr 6
      vals' ← read_many num_elems (read_vbr64 6) vals
      pure (code, vals'))
    else (do abbv ← get_abbrev abbrev_id; read_abbreviated abbv vals)
