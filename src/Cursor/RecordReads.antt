-- ===== src/Cursor/RecordReads.antt =====
-- ReadRecord of Src/BitstreamReader.cpp on a record without an abbreviation, whose format is a
-- sequence of VBR fields of 6 bits.
use dilithium.Base.{ℕ, suc, ◌+◌, ◌*◌, ◌^◌, ◌≤◌, ◌<◌, ◌≡◌, refl, ap, sym, ◌∙◌, arith}
use dilithium.Base.{List, [], ◌∷◌, ◌++◌, length, All, length-append}
use mathlib.Core.List.{append-nil, append_assoc}
use dilithium.BitCode.{unabbrev_record_id}
use dilithium.Cursor.State.{Cursor, M, Outcome, ok, source}
use dilithium.Cursor.Vbr.{read_vbr_at, read_vbr, read_vbr64}
use dilithium.Cursor.Record.{read_many, read_record}
use dilithium.Cursor.Sound.{IsSound, position}
use dilithium.Cursor.Reads.{Moved}
use dilithium.Cursor.VbrFormat.{vbr_chunks, IsStored}
use dilithium.Cursor.VbrReads.{Moved-refl, Moved-trans, IsStored-at}
use dilithium.Cursor.VbrRoundTrip.{read_vbr_at-chunks}

-- The chunks of a number below 2 ^ 64 in a field of 6 bits.
abbrev pub field : ℕ → List ℕ
field w = vbr_chunks 12 5 w

unfoldable pub fields : List ℕ → List ℕ
fields [] = []
fields (w ∷ ws) = field w ++ fields ws

-- The chunks stand at the cursor, whole.
pub record StoredAt (xs : List ℕ) (c : Cursor) : Type 0 where
  pub sound : IsSound c
  pub stored : IsStored (source c) 6 (position c) xs
  pub room : position c + 6 * length xs ≤ 8 * length (source c)

IsStored-append :
    (bytes : List ℕ) (p : ℕ) (xs ys : List ℕ)
    → IsStored bytes 6 p (xs ++ ys)
    → IsStored bytes 6 p xs × IsStored bytes 6 (p + 6 * length xs) ys
IsStored-append bytes p [] ys h = (tt, IsStored-at 6 ys refl (omega arith) h)
IsStored-append bytes p (x ∷ xs) ys (here, rest) =
    let (front, back) = IsStored-append bytes (p + 6) xs ys rest in
    ((here, front), IsStored-at 6 ys refl (omega arith) back)

-- One field is read, the others are next.
field_read :
    (width w : ℕ) (rest : List ℕ) (c : Cursor)
    → w < 2 ^ 64
    → w < 2 ^ width
    → 0 < width
    → StoredAt (field w ++ rest) c
    → (c' : Cursor) × (read_vbr_at width 6 c ≡ ok (w, c'))
      × Moved (6 * length (field w)) c c'
      × StoredAt rest c'
field_read width w rest c small fits wide h =
    let total = length-append (field w) rest in
    let (front, back) = IsStored-append (source c) (position c) (field w) rest h.stored in
    let (c', e, m) =
      read_vbr_at-chunks 12 width 6 w c h.sound (omega arith) (omega arith) (omega arith) fits wide
        front (omega (arith, h.room, total)) in
    (
      c',
      e,
      m,
      record {
        sound = m.sound;
        stored = IsStored-at 6 rest m.same.source_eq m.moved back;
        room = omega (arith, h.room, total, m.moved, ap length m.same.source_eq);
      },
    )

abbrev pub IsU64 : ℕ → Type 0
IsU64 w = w < 2 ^ 64

many_round :
    (n v : ℕ) (m : M ℕ) (vals : List ℕ) (c c1 : Cursor) (r : Outcome (List ℕ × Cursor))
    → m c ≡ ok (v, c1)
    → read_many n m (vals ++ (v ∷ [])) c1 ≡ r
    → read_many (suc n) m vals c ≡ r
unfolding read_many
many_round n v m vals c c1 r e e' = ground (arith, e, e')

many_read :
    (ws vals : List ℕ) (c : Cursor)
    → All IsU64 ws
    → StoredAt (fields ws) c
    → (c' : Cursor) × (read_many (length ws) (read_vbr64 6) vals c ≡ ok (vals ++ ws, c'))
      × Moved (6 * length (fields ws)) c c'
unfolding read_many read_vbr64 fields
many_read [] vals c small h =
    (c, ap (λ t. ok (t, c)) (sym (append-nil vals)), Moved-refl _ c h.sound refl)
many_read (w ∷ ws) vals c (small, smalls) h =
    let (c1, e, m, next) = field_read 64 w (fields ws) c small small (omega arith) h in
    let (c2, e', m') = many_read ws (vals ++ (w ∷ [])) c1 smalls next in
    (
      c2,
      many_round (length ws) w (read_vbr64 6) vals c c1 _ e
          (e' ∙ ap (λ t. ok (t, c2)) (append_assoc vals (w ∷ []) ws)),
      Moved-trans m m' (omega (arith, length-append (field w) (fields ws))),
    )

-- On a sound cursor at whose position the fields of a record without an abbreviation are stored,
-- its code and its number of operands, both below 2 ^ 32, and its operands, below 2 ^ 64, ReadRecord
-- answers the code, pushes the operands in order, and moves over exactly the fields.
pub read_record-fields :
    (code : ℕ) (ops vals : List ℕ) (c : Cursor)
    → code < 2 ^ 32
    → length ops < 2 ^ 32
    → All IsU64 ops
    → StoredAt (fields (code ∷ length ops ∷ ops)) c
    → (c' : Cursor) × (read_record unabbrev_record_id vals c ≡ ok ((code, vals ++ ops), c'))
      × Moved (6 * length (fields (code ∷ length ops ∷ ops))) c c'
unfolding read_record read_vbr fields
read_record-fields code ops vals c code_lt len_lt ops_lt h =
    let (c1, e1, m1, h1) = field_read 32 code _ c (omega arith) code_lt (omega arith) h in
    let (c2, e2, m2, h2) =
      field_read 32 (length ops) (fields ops) c1 (omega arith) len_lt (omega arith) h1 in
    let (c3, e3, m3) = many_read ops vals c2 ops_lt h2 in
    (
      c3,
      ground (arith, e1, e2, e3),
      Moved-trans m1 (Moved-trans m2 m3 refl) (
          omega (
            arith,
            length-append (field code) (field (length ops) ++ fields ops),
            length-append (field (length ops)) (fields ops),
          )),
    )
