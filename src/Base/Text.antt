-- ===== src/Base/Text.antt =====
-- Texts as lists of bytes, and what Rust's formatting prints of numbers and durations.
use Prim.Native.Nat.{ℕ, zero, suc, ◌+◌, ◌-◌, ◌*◌, ◌/◌, ◌%◌, ◌^◌, ◌≤◌, ◌<◌}
use Prim.Native.Char.{code}
use Prim.Native.String.{String}
use mathlib.Core.Path.{◌≡◌, refl, ap, ◌∙◌}
use mathlib.Core.Bool.{Bool, true, false, ◌&&◌}
use mathlib.Core.List.{List, [], ◌∷◌, ◌++◌, append_assoc}
use native.Mathlib.Nat.{pow-suc}
use native.Mathlib.Decide.{dec_lt}
use native.Mathlib.Omega.{arith}
use telemetry_threat_engine.Base.Tests.{ltb, leb, ◌==◌, if◌then◌else◌}

-- The bytes of an ASCII text.
abbrev pub codes : String → List ℕ
codes String.[] = []
codes (String.◌∷◌ c s) = code c ∷ codes s

-- Equality of texts.
abbrev pub text_eq : List ℕ → List ℕ → Bool
text_eq [] [] = true
text_eq [] (b ∷ bs) = false
text_eq (a ∷ as') [] = false
text_eq (a ∷ as') (b ∷ bs) = a == b && text_eq as' bs

pub text_eq_sound : (s t : List ℕ) → text_eq s t ≡ true → s ≡ t
text_eq_sound [] [] h = refl
text_eq_sound [] (b ∷ bs) h = cc
text_eq_sound (a ∷ s) [] h = cc
text_eq_sound (a ∷ s) (b ∷ t) h = ground (arith, text_eq_sound s t)

pub text_eq_refl : (s : List ℕ) → text_eq s s ≡ true
text_eq_refl [] = refl
text_eq_refl (a ∷ s) = ground (arith, text_eq_refl s)

-- `{}` of an unsigned number, with at most `f` digits.
unfoldable pub decimal_digits : ℕ → ℕ → List ℕ
decimal_digits zero n = []
decimal_digits (suc f) n =
    let more = decimal_digits f (n / 10) ++ (n % 10 + b'0') ∷ [] in
    if ltb n 10 then (n + b'0') ∷ [] else more

-- A u64 has at most twenty digits.
unfoldable pub decimal : ℕ → List ℕ
unfolding decimal_digits
decimal n = decimal_digits 20 n

-- The digits after the point, without trailing zeros: `v` is below `10 ^ f`.
unfoldable pub fraction_digits : ℕ → ℕ → List ℕ
fraction_digits zero v = []
fraction_digits (suc f) v =
    let more = (v / 10 ^ f + b'0') ∷ fraction_digits f (v % 10 ^ f) in if v == 0 then [] else more

unfoldable pub with_point : List ℕ → List ℕ
with_point [] = []
with_point (d ∷ ds) = b'.' ∷ d ∷ ds

-- `{:?}` of a `Duration`, here its number of nanoseconds: in the largest unit that is not below one.
unfoldable pub debug_duration : ℕ → List ℕ
unfolding decimal fraction_digits with_point
debug_duration ns =
    if leb (10 ^ 9) ns
    then decimal (ns / 10 ^ 9) ++ (with_point (fraction_digits 9 (ns % 10 ^ 9)) ++ codes "s")
    else if leb (10 ^ 6) ns
    then decimal (ns / 10 ^ 6) ++ (with_point (fraction_digits 6 (ns % 10 ^ 6)) ++ codes "ms")
    else if leb (10 ^ 3) ns
    then decimal (ns / 10 ^ 3)
      ++ (with_point (fraction_digits 3 (ns % 10 ^ 3)) ++ 0xc2 ∷ 0xb5 ∷ codes "s")
    else decimal ns ++ codes "ns"

debug_duration_tests :
    (debug_duration 5000000000 ≡ codes "5s")
    × (debug_duration 2500000 ≡ codes "2.5ms")
    × (debug_duration 1000000050 ≡ codes "1.00000005s")
    × (debug_duration 7 ≡ codes "7ns")
unfolding debug_duration
debug_duration_tests = (refl, refl, refl, refl)

-- Reads a number up to the first byte that is a point: the inverse of `decimal` below.
unfoldable pub read_decimal : ℕ → List ℕ → ℕ × List ℕ
read_decimal acc [] = (acc, [])
read_decimal acc (c ∷ cs) =
    let more = read_decimal (acc * 10 + (c - b'0')) cs in if c == b'.' then (acc, cs) else more

read_decimal-digit :
    (acc d : ℕ) (rest : List ℕ)
    → d < 10
    → read_decimal acc ((d + b'0') ∷ rest) ≡ read_decimal (acc * 10 + d) rest
unfolding read_decimal
read_decimal-digit acc d rest h = ground arith

decimal_digits-one : (f n : ℕ) → n < 10 → decimal_digits (suc f) n ≡ (n + b'0') ∷ []
unfolding decimal_digits
decimal_digits-one f n h = ground arith

decimal_digits-more :
    (f n : ℕ)
    → 10 ≤ n
    → decimal_digits (suc f) n ≡ decimal_digits f (n / 10) ++ (n % 10 + b'0') ∷ []
unfolding decimal_digits
decimal_digits-more f n h = ground arith

read_decimal-one :
    (f n : ℕ) (rest : List ℕ)
    → n < 10
    → read_decimal 0 (decimal_digits (suc f) n ++ rest) ≡ read_decimal n rest
read_decimal-one f n rest h =
    rw (decimal_digits-one f n h)
      (read_decimal-digit 0 n rest h ∙ ap (λ k. read_decimal k rest) (omega arith))

-- Reading what `decimal` printed gives the number, and goes on with the rest.
read_decimal-digits :
    (f n : ℕ) (rest : List ℕ)
    → n < 10 ^ suc f
    → read_decimal 0 (decimal_digits (suc f) n ++ rest) ≡ read_decimal n rest
read_decimal-digits zero n rest h = read_decimal-one zero n rest h
read_decimal-digits (suc f) n rest h = elim (dec_lt n 10) [
  | yes small ↦ read_decimal-one (suc f) n rest small
  | no big ↦
      rw (decimal_digits-more (suc f) n (omega arith), append_assoc)
        (read_decimal-digits f (n / 10) ((n % 10 + b'0') ∷ rest) shorter
          ∙ read_decimal-digit (n / 10) (n % 10) rest (omega arith)
          ∙ ap (λ k. read_decimal k rest) (omega arith))
]
  where
    shorter : n / 10 < 10 ^ suc f
    shorter = omega (arith, pow-suc 10 (suc f))

pub read_decimal-decimal :
    (n : ℕ) (rest : List ℕ) → n < 10 ^ 20 → read_decimal 0 (decimal n ++ rest) ≡ read_decimal n rest
unfolding decimal
read_decimal-decimal n rest h = read_decimal-digits 19 n rest h

pub read_decimal-point : (n : ℕ) (rest : List ℕ) → read_decimal n (b'.' ∷ rest) ≡ (n, rest)
unfolding read_decimal
read_decimal-point n rest = refl

pub read_decimal-nil : (n : ℕ) → read_decimal n [] ≡ (n, [])
unfolding read_decimal
read_decimal-nil n = refl
