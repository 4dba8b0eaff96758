-- ===== src/Cursor/Abbrev.antt =====
-- Src/BitstreamReader.cpp: ReadAbbreviatedField, SkipAbbreviatedField, GetAbbrev and
-- ReadAbbrevRecord.
use dilithium.Base.{ℕ, zero, suc, ◌+◌, ◌-◌, ◌%◌, ◌^◌}
use dilithium.Base.{Bool, true, false, ◌&&◌, if◌then◌else◌, ltb, leb, ◌==◌}
use dilithium.Base.{Option, none, some, [], ◌∷◌, ◌++◌, length, get_elem?}
use dilithium.BitCode.{Encoding, fixed, vbr, array, char6, blob, encoding_of, has_encoding_data}
use dilithium.BitCode.{AbbrevOp, literal, encoded, Abbrev, decode_char6, first_application_abbrev}
use dilithium.Cursor.State.{M, ◌>>=◌, ◌>>◌, pure, throw, modify, asserting}
use dilithium.Cursor.State.{fatal, assertion, unreachable}
use dilithium.Cursor.Word.{read}
use dilithium.Cursor.Vbr.{read_vbr, read_vbr64}

abbrev or_throw : Option ℕ → M ℕ
or_throw none = throw unreachable
or_throw (some v) = pure v

unfoldable pub read_abbreviated_field : AbbrevOp → M ℕ
unfolding decode_char6
read_abbreviated_field (literal v) = throw assertion
read_abbreviated_field (encoded array d) = throw unreachable
read_abbreviated_field (encoded blob d) = throw unreachable
read_abbreviated_field (encoded fixed d) = asserting (leb d 64) >> read (d % 2 ^ 32)
read_abbreviated_field (encoded vbr d) = asserting (leb d 64) >> read_vbr64 (d % 2 ^ 32)
read_abbreviated_field (encoded char6 d) = do v ← read 6; or_throw (decode_char6 (v % 2 ^ 32))

unfoldable pub skip_abbreviated_field : AbbrevOp → M (Unit {0})
skip_abbreviated_field (literal v) = throw assertion
skip_abbreviated_field (encoded array d) = throw unreachable
skip_abbreviated_field (encoded blob d) = throw unreachable
skip_abbreviated_field (encoded fixed d) = do asserting (leb d 64); read (d % 2 ^ 32); pure tt
skip_abbreviated_field (encoded vbr d) = do asserting (leb d 64); read_vbr64 (d % 2 ^ 32); pure tt
skip_abbreviated_field (encoded char6 d) = do read 6; pure tt

-- abbrev_id - FirstApplicationAbbrev wraps in 32 bits.
abbrev pub abbrev_no : ℕ → ℕ
abbrev_no abbrev_id = (abbrev_id + 2 ^ 32 - first_application_abbrev) % 2 ^ 32

unfoldable pub get_abbrev : ℕ → M Abbrev
get_abbrev abbrev_id c = elim (get_elem? c.curr_abbrevs (abbrev_no abbrev_id)) [
  | none ↦ throw fatal c
  | some a ↦ pure a c
]

-- enc == Fixed || enc == VBR
abbrev is_sized : Encoding → Bool
is_sized fixed = true
is_sized vbr = true
is_sized array = false
is_sized char6 = false
is_sized blob = false

-- An operand whose encoding has data: a width of 0 makes it the literal 0.
abbrev pub sized_op : Encoding → ℕ → M AbbrevOp
sized_op enc d =
    if is_sized enc && d == 0
    then pure (literal 0)
    else if is_sized enc && ltb 64 d
    then throw fatal
    else pure (encoded enc d)

unfoldable pub read_encoding : Option Encoding → M AbbrevOp
unfolding has_encoding_data
read_encoding none = throw unreachable
read_encoding (some enc) =
    if has_encoding_data enc then (do d ← read_vbr64 5; sized_op enc d) else pure (encoded enc 0)

-- One operand of an abbreviation definition.
unfoldable pub read_abbrev_op : M AbbrevOp
unfolding encoding_of read_encoding
read_abbrev_op = do
  is_lit ← read 1
  if is_lit == 0
      then (do e ← read 3; read_encoding (encoding_of (e % 2 ^ 8)))
      else (do v ← read_vbr64 8; pure (literal v))

unfoldable pub read_abbrev_ops : ℕ → Abbrev → M Abbrev
unfolding read_abbrev_op
read_abbrev_ops zero abbv = pure abbv
read_abbrev_ops (suc n) abbv = do op ← read_abbrev_op; read_abbrev_ops n (abbv ++ (op ∷ []))

unfoldable pub read_abbrev_record : M (Unit {0})
unfolding read_abbrev_ops
read_abbrev_record = do
  num_op_info ← read_vbr 5
  abbv ← read_abbrev_ops num_op_info []
  if length abbv == 0
      then throw fatal
      else modify (λ c. record c { curr_abbrevs = c.curr_abbrevs ++ (abbv ∷ []) })
