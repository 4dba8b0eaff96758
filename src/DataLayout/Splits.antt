-- ===== src/DataLayout/Splits.antt =====
-- What Split, ToInt and InBytes of Src/DataLayout.cpp ensure.
use dilithium.Base.{ℕ, suc, ◌+◌, ◌^◌, ◌<◌, ◌≡◌, refl, arith, length}
use dilithium.Base.{Bool, true, false, if◌then◌else◌, ◌==◌, Option, none, some, List, [], ◌∷◌}
use native.Mathlib.Nat.{div-le_self}
use dilithium.DataLayout.{ok, error, trailing_separator, missing_token}
use dilithium.DataLayout.Words.{
  is_empty, cut, split, skip_space, read_positive, read_negative, read_signed, to_int, in_bytes,
}
use dilithium.DataLayout.Specifier.{bytes_of, int_or_zero}
use dilithium.DataLayout.Outcomes.{Ensures, Ensures-bind}

-- Both texts and the separator are in the text.
abbrev pub HasCut : List ℕ → Option (List ℕ × List ℕ) → Type 0
HasCut s none = Unit {0}
HasCut s (some (a, b)) = suc (length a + length b) ≡ length s

cut-HasCut : (separator : ℕ) (s : List ℕ) → HasCut s (cut separator s)
unfolding cut
cut-HasCut separator [] = tt
cut-HasCut separator (c ∷ cs) = go (c == separator) (cut separator cs) (cut-HasCut separator cs)
  where
    go :
        (b : Bool) (o : Option (List ℕ × List ℕ))
        → HasCut cs o
        → HasCut (c ∷ cs) (elim b [
          | true ↦ some ([], cs)
          | false ↦ elim o [ none ↦ none | some (a, r) ↦ some (c ∷ a, r) ]
        ])
    go true o h = omega arith
    go false none h = tt
    go false (some (a, r)) h = omega (arith, h)

-- A first text with a byte, and a second that is shorter than the whole.
abbrev pub IsSplit : ℕ → List ℕ × List ℕ → Type 0
IsSplit n s = (is_empty s.0 ≡ false) × (length s.1 < n)

pub split-Ensures :
    (separator c : ℕ) (cs : List ℕ) → Ensures (IsSplit (suc (length cs))) (split separator (c ∷ cs))
unfolding split Ensures
split-Ensures separator c cs = go (cut separator (c ∷ cs)) (cut-HasCut separator (c ∷ cs))
  where
    go :
        (o : Option (List ℕ × List ℕ))
        → HasCut (c ∷ cs) o
        → Ensures (IsSplit (suc (length cs))) (elim o [
          | none ↦ ok (c ∷ cs, [])
          | some (a, b) ↦
              if is_empty b
              then error trailing_separator
              else if is_empty a
              then error missing_token
              else ok (a, b)
        ])
    go none h = (refl, omega arith)
    go (some (a, [])) h = tt
    go (some ([], d ∷ ds)) h = tt
    go (some (x ∷ xs, d ∷ ds)) h = (refl, omega (arith, h))

-- What a number of the code fits in.
abbrev pub Is32Bit : ℕ → Type 0
Is32Bit v = v < 2 ^ 32

read_positive-Ensures : (cs : List ℕ) → Ensures Is32Bit (read_positive cs)
unfolding read_positive Ensures
read_positive-Ensures cs = ground arith

read_negative-Ensures : (cs : List ℕ) → Ensures Is32Bit (read_negative cs)
unfolding read_negative Ensures
read_negative-Ensures cs = ground arith

read_signed-Ensures : (cs : List ℕ) → Ensures Is32Bit (read_signed cs)
unfolding read_signed Ensures
read_signed-Ensures [] = tt
read_signed-Ensures (c ∷ cs) = go (c == 45) (c == 43)
  where
    go :
        (a b : Bool)
        → Ensures Is32Bit
            (if a then read_negative cs else if b then read_positive cs else read_positive (c ∷ cs))
    go true b = read_negative-Ensures cs
    go false true = read_positive-Ensures cs
    go false false = read_positive-Ensures (c ∷ cs)

pub to_int-Ensures : (cs : List ℕ) → Ensures Is32Bit (to_int cs)
unfolding to_int Ensures
to_int-Ensures cs = read_signed-Ensures (skip_space cs)

in_bytes-Ensures : (bits : ℕ) → Is32Bit bits → Ensures Is32Bit (in_bytes bits)
unfolding in_bytes Ensures
in_bytes-Ensures bits h = ground (arith, div-le_self bits 8)

pub bytes_of-Ensures : (cs : List ℕ) → Ensures Is32Bit (bytes_of cs)
unfolding bytes_of Ensures
bytes_of-Ensures cs =
    Ensures-bind Is32Bit Is32Bit (to_int cs) in_bytes (to_int-Ensures cs) in_bytes-Ensures

pub int_or_zero-Ensures : (cs : List ℕ) → Ensures Is32Bit (int_or_zero cs)
unfolding int_or_zero Ensures
int_or_zero-Ensures [] = omega arith
int_or_zero-Ensures (c ∷ cs) = to_int-Ensures (c ∷ cs)
