-- ===== src/Base/Bits.antt =====
-- Laws of the bit operations at variables: the digit recursion, masks of ones, and single bits.
use Prim.Native.Nat.{
  ℕ, zero, suc, ◌+◌, ◌-◌, ◌*◌, ◌/◌, ◌%◌, ◌^◌, ◌≤◌, ◌<◌, min, digits, bit_and, bit_and-bitwise,
}
use mathlib.Core.Path.{◌≡◌, refl, ap, ◌∙◌}
use native.Mathlib.Nat.{
  pow-suc, one-le-pow, div-add-mod, mul-add-mod_self_left, mod-eq_of_lt, mod-lt,
}
use native.Mathlib.Omega.{arith}

module _ (z : ℕ → ℕ) (f : ℕ → ℕ → ℕ) where
  -- The recursion on digits gives the same at any two counts of digits that are large enough.
  digits-enough : (n m a b : ℕ) → a ≤ n → a ≤ m → digits z f n a b ≡ digits z f m a b
  digits-enough zero zero a b p q = refl
  digits-enough zero (suc m) zero b p q = refl
  digits-enough (suc n) zero zero b p q = refl
  digits-enough (suc n) (suc m) zero b p q = refl
  digits-enough zero m (suc a) b p q = absurd (omega arith)
  digits-enough (suc n) zero (suc a) b p q = absurd (omega arith)
  digits-enough (suc n) (suc m) (suc a) b p q =
      omega (arith, digits-enough n m (suc a / 2) (b / 2) (omega arith) (omega arith))

zero-bit_and : (b : ℕ) → bit_and 0 b ≡ 0
zero-bit_and b = bit_and-bitwise 0 b

-- The lowest digit of a conjunction, and the rest of it.
pub bit_and-halves : (a b : ℕ) → bit_and a b ≡ bit_and (a / 2) (b / 2) * 2 + min (a % 2) (b % 2)
bit_and-halves zero b = omega (arith, zero-bit_and b, zero-bit_and (b / 2))
bit_and-halves (suc a) b = omega (
  arith,
  bit_and-bitwise (suc a) b,
  bit_and-bitwise (suc a / 2) (b / 2),
  digits-enough (λ _. zero) min a (suc a / 2) (suc a / 2) (b / 2) (omega arith) (omega arith),
)

bit_and-zero_upto : (n a : ℕ) → a ≤ n → bit_and a 0 ≡ 0
bit_and-zero_upto n zero h = refl
bit_and-zero_upto zero (suc a) h = absurd (omega arith)
bit_and-zero_upto (suc n) (suc a) h =
    omega (arith, bit_and-halves (suc a) 0, bit_and-zero_upto n (suc a / 2) (omega arith))

-- The remainder at twice a modulus, from the remainder of the half.
mod-double : (a m : ℕ) → 0 < m → a % (2 * m) ≡ a / 2 % m * 2 + a % 2
mod-double a m pos =
    subst_mod split ∙ mul-add-mod_self_left (2 * m) (a / 2 / m) low ∙ mod-eq_of_lt low-lt
  where
    low : ℕ
    low = a / 2 % m * 2 + a % 2

    split : a ≡ 2 * m * (a / 2 / m) + low
    split = omega (arith, div-add-mod (a / 2) m)

    low-lt : low < 2 * m
    low-lt = omega (arith, mod-lt (a / 2) pos)

    subst_mod : {b : ℕ} → a ≡ b → a % (2 * m) ≡ b % (2 * m)
    subst_mod e = ap (λ x. x % (2 * m)) e

bit_and_step :
    (a b m : ℕ)
    → 0 < m
    → b ≡ 2 * m - 1
    → bit_and (a / 2) (m - 1) ≡ a / 2 % m
    → bit_and a b ≡ a % (2 * m)
bit_and_step a b m pos e ih =
    omega (arith, bit_and-halves a b, ap (bit_and (a / 2)) halved, ih, mod-double a m pos)
  where
    halved : b / 2 ≡ m - 1
    halved = omega arith

-- A mask of `k` ones keeps the remainder modulo `2 ^ k`.
pub bit_and-mask : (k a : ℕ) → bit_and a (2 ^ k - 1) ≡ a % 2 ^ k
bit_and-mask zero a = omega (arith, bit_and-zero_upto a a (omega arith))
bit_and-mask (suc k) a =
    bit_and_step a (2 ^ suc k - 1) (2 ^ k) (one-le-pow k 2 (omega arith)) (omega (arith, double))
      (bit_and-mask k (a / 2))
    ∙ ap (λ x. a % x) (omega (arith, double))
  where
    double : 2 ^ suc k ≡ 2 ^ k * 2
    double = pow-suc 2 k

-- One bit at a time.
pub bit_and-one : (a : ℕ) → bit_and a 1 ≡ a % 2
bit_and-one a = bit_and-mask 1 a

pub bit_and-two : (a : ℕ) → bit_and a 2 ≡ a / 2 % 2 * 2
bit_and-two a = omega (arith, bit_and-halves a 2, bit_and-one (a / 2))
