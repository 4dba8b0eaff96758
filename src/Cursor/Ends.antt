-- ===== src/Cursor/Ends.antt =====
-- How many bits are left around each read of the cursor of Src/BitstreamReader.cpp, in whatever
-- state it is: the measure of its loops.
use dilithium.Base.{ℕ, ◌+◌, ◌-◌, ◌≤◌, ◌<◌, ◌≡◌, arith, ◌⊎◌, ◌≢◌}
use dilithium.Base.{length, if◌then◌else◌, ◌==◌}
use dilithium.Stream.{stream_read}
use dilithium.Stream.Laws.{stream_read-Takes, tellg-buf}
use dilithium.Cursor.State.{Cursor, M, Outcome, ok, fail, exhausted, source}
use dilithium.Cursor.Word.{fill_curr_word, read_high, read}
use dilithium.Cursor.Vbr.{bits_left}

abbrev pub IsWithin : Cursor → Type 0
IsWithin c = c.reader.stream.buf.current ≤ length (source c)

-- From `c` to `c'` the stream is the same and no bits came back.
pub record Keeps (c c' : Cursor) : Type 0 where
  pub within : IsWithin c'
  pub shrinks : bits_left c' ≤ bits_left c

pub Keeps-trans : {a b c : Cursor} → Keeps a b → Keeps b c → Keeps a c
Keeps-trans h k = record { within = k.within; shrinks = omega (arith, h.shrinks, k.shrinks) }

-- An outcome that is no lack of fuel, and satisfies `P` where it is a result.
abbrev pub Ends : {A : Type 0} → (A → Cursor → Type 0) → Outcome (A × Cursor) → Type 0
Ends P (ok (a, c)) = P a c
Ends P (fail e) = e ≢ exhausted

pub Ends-bind :
    {A B : Type 0} (P : A → Cursor → Type 0) (Q : B → Cursor → Type 0) (r : Outcome (A × Cursor))
    (f : A → M B)
    → Ends P r
    → ((a : A) (c : Cursor) → P a c → Ends Q (f a c))
    → Ends Q (elim r [ ok (a, c) ↦ f a c | fail e ↦ fail e ])
Ends-bind P Q (ok (a, c)) f h k = k a c h
Ends-bind P Q (fail e) f h k = h

-- A read of `n` bits answers 0 or takes a bit at least.
abbrev pub Progress : Cursor → ℕ → Cursor → Type 0
Progress c v c' = Keeps c c' × ((v ≡ 0) ⊎ (bits_left c' < bits_left c))

abbrev pub Kept : {A : Type 0} → Cursor → A → Cursor → Type 0
Kept c v c' = Keeps c c'

pub Kept-after :
    {A : Type 0} (c c' : Cursor) (r : Outcome (A × Cursor))
    → Keeps c c'
    → Ends (Kept c') r
    → Ends (Kept c) r
Kept-after c c' (ok (a, d)) h k = Keeps-trans h k
Kept-after c c' (fail e) h k = k

-- The rule for a step and what follows it.
pub Kept-bind :
    {A B : Type 0} (c : Cursor) (r : Outcome (A × Cursor)) (f : A → M B)
    → Ends (Kept c) r
    → ((a : A) (c' : Cursor) → IsWithin c' → Ends (Kept c') (f a c'))
    → Ends (Kept c) (elim r [ ok (a, c') ↦ f a c' | fail e ↦ fail e ])
Kept-bind c r f h k =
    Ends-bind (Kept c) (Kept c) r f h (λ a c' p. Kept-after c c' (f a c') p (k a c' p.within))

pub Progress-Kept : (c : Cursor) (r : Outcome (ℕ × Cursor)) → Ends (Progress c) r → Ends (Kept c) r
Progress-Kept c (ok (v, c')) h = h.0
Progress-Kept c (fail e) h = h

-- What a refill can do: take the word's place by new bits, or find none.
abbrev pub Refilled : Cursor → Unit {0} → Cursor → Type 0
Refilled c u c' =
    IsWithin c'
    × ((bits_left c' + c.bits_in_curr_word ≡ bits_left c)
        ⊎ (bits_left c' ≡ bits_left c) × (c'.bits_in_curr_word ≡ c.bits_in_curr_word))

pub fill-Ends : (c : Cursor) → IsWithin c → Ends (Refilled c) (fill_curr_word c)
unfolding fill_curr_word
fill-Ends c h =
    ground
      (arith, stream_read-Takes 8 c.reader.stream h, tellg-buf (stream_read 8 c.reader.stream).1)

read_high-Progress :
    (n ret left : ℕ) (c c1 : Cursor)
    → 0 < left
    → IsWithin c1
    → bits_left c1 ≤ bits_left c
    → Progress c (read_high n ret left c1).0 (read_high n ret left c1).1
unfolding read_high
read_high-Progress n ret left c c1 pos_left h le = ground arith

after_fill :
    (n ret left : ℕ) (c : Cursor) (r : Outcome (Unit {0} × Cursor))
    → Ends (Refilled c) r
    → 0 < left
    → Ends (Progress c) (elim r [ fail e ↦ fail e | ok (_, c') ↦ ok (read_high n ret left c') ])
after_fill n ret left c (fail e) h pos_left = h
after_fill n ret left c (ok (_, c')) h pos_left =
    read_high-Progress n ret left c c' pos_left h.0 (omega (arith, h.1))

-- Read on any cursor within its buffer, sound or not, fails with a fault of the code, answers 0, or
-- takes a bit at least; no bits come back.
pub read-Ends : (n : ℕ) (c : Cursor) → IsWithin c → Ends (Progress c) (read n c)
unfolding read
read-Ends n c h = ground (
  arith,
  after_fill n (if c.bits_in_curr_word == 0 then 0 else c.curr_word) (n - c.bits_in_curr_word) c
      (fill_curr_word c) (fill-Ends c h),
)
