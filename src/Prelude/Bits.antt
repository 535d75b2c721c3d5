-- ===== src/Prelude/Bits.antt =====
-- `|` and `^` as arithmetic. The native operations mean a recursion on binary digits.
use Prim.Native.Nat.{ℕ, zero, suc, ◌+◌, ◌-◌, ◌*◌, ◌/◌, ◌%◌, ◌^◌, ◌≤◌, ◌<◌, max}
use Prim.Native.Nat.{
  bit_and, bit_or, bit_xor, digits, bitwise, bit_or-bitwise, bit_xor-bitwise, differ,
}
use mathlib.Core.Path.{◌≡◌, refl, ap}
use mathlib.Core.Bool.{Bool, true, ◌&&◌}
use native.Mathlib.Nat.{pow-suc, one-le-pow}
use native.Mathlib.Omega.{arith}
use lol_crawler.Prelude.Tests.{◌==◌, ==_iff}

-- The recursion does not depend on its fuel, once that is large enough.
module _ (z : ℕ → ℕ) (f : ℕ → ℕ → ℕ) where
  digits_more : (m n a b : ℕ) → a ≤ m → a ≤ n → digits z f m a b ≡ digits z f n a b
  digits_more zero zero zero b h k = refl
  digits_more zero (suc n) zero b h k = refl
  digits_more (suc m) zero zero b h k = refl
  digits_more (suc m) (suc n) zero b h k = refl
  digits_more zero n (suc a) b h k = absurd (omega arith)
  digits_more (suc m) zero (suc a) b h k = absurd (omega arith)
  digits_more (suc m) (suc n) (suc a) b h k =
      rw (digits_more m n (suc a / 2) (b / 2) (omega arith) (omega arith))

  bitwise_digit :
      (a b : ℕ)
      → bitwise z f (suc a) b ≡ bitwise z f (suc a / 2) (b / 2) * 2 + f (suc a % 2) (b % 2)
  bitwise_digit a b =
      omega (arith, digits_more a (suc a / 2) (suc a / 2) (b / 2) (omega arith) (omega arith))

bit_or_digit : (a b : ℕ) → bit_or a b ≡ bit_or (a / 2) (b / 2) * 2 + max (a % 2) (b % 2)
bit_or_digit zero b = simp bit_or-bitwise (omega arith)
bit_or_digit (suc a) b = simp bit_or-bitwise (bitwise_digit (λ y. y) max a b)

differ_digit : (x y : ℕ) → x < 2 → y < 2 → differ x y ≡ (x + y) % 2
differ_digit zero y h k = omega arith
differ_digit (suc zero) zero h k = refl
differ_digit (suc zero) (suc y) h k = omega arith
differ_digit (suc (suc x)) y h k = absurd (omega arith)

bit_xor_digit : (a b : ℕ) → bit_xor a b ≡ bit_xor (a / 2) (b / 2) * 2 + (a % 2 + b % 2) % 2
bit_xor_digit zero b = simp bit_xor-bitwise (omega arith)
bit_xor_digit (suc a) b = simp bit_xor-bitwise (
    omega (
      arith,
      bitwise_digit (λ y. y) differ a b,
      differ_digit (suc a % 2) (b % 2) (omega arith) (omega arith),
    ))

or_zero_fuel : (n a : ℕ) → a ≤ n → bit_or a 0 ≡ a
or_zero_fuel n zero h = refl
or_zero_fuel zero (suc a) h = absurd (omega arith)
or_zero_fuel (suc n) (suc a) h =
    omega (arith, bit_or_digit (suc a) 0, or_zero_fuel n (suc a / 2) (omega arith))

pow_suc : (k : ℕ) → 2 ^ suc k ≡ 2 * 2 ^ k
pow_suc k = omega (arith, pow-suc 2 k)

half_shift : (k hi : ℕ) → (hi * 2 ^ suc k / 2 ≡ hi * 2 ^ k) × (hi * 2 ^ suc k % 2 ≡ 0)
half_shift k hi =
    let e : hi * 2 ^ suc k ≡ 2 * (hi * 2 ^ k) = omega (arith, ap (λ (t : ℕ). hi * t) (pow_suc k)) in
    (omega arith, omega arith)

-- Two fields that do not overlap: `|` is their sum.
pub bit_or_sum : (k lo hi : ℕ) → lo < 2 ^ k → bit_or lo (hi * 2 ^ k) ≡ lo + hi * 2 ^ k
bit_or_sum zero lo hi h = let e : lo ≡ 0 = omega arith in rw (e, bit_or-bitwise) (omega arith)
bit_or_sum (suc k) lo hi h = omega (
  arith,
  bit_or_digit lo (hi * 2 ^ suc k),
  half_shift k hi,
  ap (bit_or (lo / 2)) (half_shift k hi).0,
  bit_or_sum k (lo / 2) hi (omega (arith, pow_suc k)),
)

-- `^` with zeros keeps a word, and `^` with ones flips it.
pub bit_xor_zero : (k a : ℕ) → a < 2 ^ k → bit_xor a 0 ≡ a
bit_xor_zero zero a h = let e : a ≡ 0 = omega arith in rw e
bit_xor_zero (suc k) a h =
    omega (arith, bit_xor_digit a 0, bit_xor_zero k (a / 2) (omega (arith, pow_suc k)))

halved : (k : ℕ) → (2 ^ suc k - 1) / 2 ≡ 2 ^ k - 1
halved k = omega (arith, pow_suc k, one-le-pow k 2)

pub bit_xor_ones : (k a : ℕ) → a < 2 ^ k → bit_xor a (2 ^ k - 1) ≡ 2 ^ k - 1 - a
bit_xor_ones zero a h = let e : a ≡ 0 = omega arith in rw e
bit_xor_ones (suc k) a h = omega (
  arith,
  bit_xor_digit a (2 ^ suc k - 1),
  ap (bit_xor (a / 2)) (halved k),
  bit_xor_ones k (a / 2) (omega (arith, pow_suc k)),
  one-le-pow k 2,
  pow_suc k,
)

-- A claim about every number below a bound, by evaluation.
pub all_below : ℕ → (ℕ → Bool) → Bool
all_below zero p = true
all_below (suc n) p = p n && all_below n p

all_below_at : (n : ℕ) (p : ℕ → Bool) (i : ℕ) → all_below n p ≡ true → i < n → p i ≡ true
unfolding all_below
all_below_at zero p i h lt = absurd (omega arith)
all_below_at (suc n) p i h lt = ground (arith, all_below_at n p i)

module _ (f g : ℕ → ℕ) where
  same_below : (n : ℕ) → all_below n (λ i. f i == g i) ≡ true → (i : ℕ) → i < n → f i ≡ g i
  same_below n h i lt = (==_iff _ _).0 (all_below_at n (λ i. f i == g i) i h lt)

-- The masks of the varint loops, on one byte.
pub and_0x7f : (b : ℕ) → b < 256 → bit_and b 0x7f ≡ b % 128
unfolding all_below
and_0x7f = same_below _ _ 256 refl

pub and_0x80 : (b : ℕ) → b < 256 → bit_and b 0x80 ≡ b / 128 * 128
unfolding all_below
and_0x80 = same_below _ _ 256 refl

pub and_0xfe : (b : ℕ) → b < 256 → bit_and b 0xfe ≡ b / 2 * 2
unfolding all_below
and_0xfe = same_below _ _ 256 refl

pub or_0x80 : (b : ℕ) → b < 128 → bit_or b 0x80 ≡ b + 128
unfolding all_below
or_0x80 = same_below _ _ 128 refl
