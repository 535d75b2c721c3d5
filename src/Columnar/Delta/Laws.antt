-- ===== src/Columnar/Delta/Laws.antt =====
-- The zigzag code is a bijection between the i64 and the u64, and a delta is undone by its sum.
use lol_crawler.Prelude.{ℕ, ◌+◌, ◌-◌, ◌*◌, ◌/◌, ◌%◌, ◌^◌, ◌<◌, ◌≡◌, subst, arith}
use lol_crawler.Prelude.Bits.{bit_xor_zero, bit_xor_ones}
use lol_crawler.Prelude.Int.{ℤ, pos, negsuc, sub_ℕ, ◌-ℤ◌, IsI64, IsU64, IsU32}
use lol_crawler.Prelude.Result.{ok}
use native.Mathlib.Decide.{ℕ_discrete}
use lol_crawler.Columnar.Delta.{
  zigzag_i64, unzigzag_i64, to_usize, read_u32, delta_u64, delta_i64, add_delta_u64, add_delta_i64,
  add_delta_u32,
}

-- The code in plain arithmetic: 0, -1, 1, -2, 2 and so on are 0, 1, 2, 3, 4.
zigzag-pos : (n : ℕ) → n < 2 ^ 63 → zigzag_i64 (pos n) ≡ 2 * n
unfolding zigzag_i64
zigzag-pos n h = omega (arith, bit_xor_zero 64 (n * 2 % 2 ^ 64) (omega arith))

zigzag-negsuc : (n : ℕ) → n < 2 ^ 63 → zigzag_i64 (negsuc n) ≡ 2 * n + 1
unfolding zigzag_i64
zigzag-negsuc n h = omega (arith, bit_xor_ones 64 ((2 ^ 64 - 1 - n) * 2 % 2 ^ 64) (omega arith))

unzigzag-even : (n : ℕ) → n < 2 ^ 63 → unzigzag_i64 (2 * n) ≡ pos n
unfolding unzigzag_i64
unzigzag-even n h = ground (arith, bit_xor_zero 64 n (omega arith))

unzigzag-odd : (n : ℕ) → n < 2 ^ 63 → unzigzag_i64 (2 * n + 1) ≡ negsuc n
unfolding unzigzag_i64
unzigzag-odd n h = ground (arith, bit_xor_ones 64 n (omega arith))

-- Every i64 is read back from its zigzag code.
pub unzigzag-zigzag : (v : ℤ) → IsI64 v → unzigzag_i64 (zigzag_i64 v) ≡ v
unzigzag-zigzag (pos n) h = rw (zigzag-pos n (omega arith)) (unzigzag-even n (omega arith))
unzigzag-zigzag (negsuc n) h = rw (zigzag-negsuc n (omega arith)) (unzigzag-odd n (omega arith))

pub zigzag-IsU64 : (v : ℤ) → IsI64 v → IsU64 (zigzag_i64 v)
zigzag-IsU64 (pos n) h = omega (arith, zigzag-pos n (omega arith))
zigzag-IsU64 (negsuc n) h = omega (arith, zigzag-negsuc n (omega arith))

abbrev Returns : ℕ → Type 0
Returns u = (zigzag_i64 (unzigzag_i64 u) ≡ u) × IsI64 (unzigzag_i64 u)

Returns-even : (n : ℕ) → n < 2 ^ 63 → Returns (2 * n)
Returns-even n h = rw (unzigzag-even n h) (zigzag-pos n h, omega arith)

Returns-odd : (n : ℕ) → n < 2 ^ 63 → Returns (2 * n + 1)
Returns-odd n h = rw (unzigzag-odd n h) (zigzag-negsuc n h, omega arith)

-- Every u64 is the zigzag code of an i64, the one that it decodes to.
pub zigzag-unzigzag : (u : ℕ) → IsU64 u → (zigzag_i64 (unzigzag_i64 u) ≡ u) × IsI64 (unzigzag_i64 u)
zigzag-unzigzag u h = elim (ℕ_discrete (u % 2) 0) [
  | yes e ↦ subst Returns (omega arith) (Returns-even (u / 2) (omega arith))
  | no e ↦ subst Returns (omega arith) (Returns-odd (u / 2) (omega arith))
]

-- The delta of two u64, where it is an i64, is undone by the sum with the value before.
pub add_delta-delta_u64 :
    (value prev : ℕ) {d : ℤ}
    → IsU64 value
    → delta_u64 value prev ≡ ok d
    → (add_delta_u64 prev d ≡ ok value) × IsI64 d
unfolding delta_u64 add_delta_u64
add_delta-delta_u64 value prev h e = ground arith

-- The delta of two i64, where it is an i64, is undone by the sum with the value before.
pub add_delta-delta_i64 :
    (value prev : ℤ) {d : ℤ}
    → IsI64 value
    → delta_i64 value prev ≡ ok d
    → (add_delta_i64 prev d ≡ ok value) × IsI64 d
unfolding delta_i64 add_delta_i64
add_delta-delta_i64 value prev h e = ground arith

pub add_delta_u32-sub :
    (value prev : ℕ)
    → IsU32 value
    → IsU32 prev
    → (add_delta_u32 prev (sub_ℕ value prev) ≡ ok value) × IsI64 (sub_ℕ value prev)
unfolding add_delta_u32
add_delta_u32-sub value prev h k = ground arith

pub read_u32-ok : (v : ℕ) → IsU32 v → read_u32 v ≡ ok v
unfolding read_u32
read_u32-ok v h = ground arith

pub to_usize-ok : (v : ℕ) → IsU64 v → to_usize v ≡ ok v
unfolding to_usize
to_usize-ok v h = ground arith

-- A difference of two numbers below 2 ^ 63 fits an i64.
pub delta_u64-ok :
    (value prev : ℕ) → value < 2 ^ 63 → prev < 2 ^ 63 → delta_u64 value prev ≡ ok (sub_ℕ value prev)
unfolding delta_u64
delta_u64-ok value prev h k = ground arith

pub delta_i64-ok :
    (value prev : ℕ)
    → value < 2 ^ 63
    → prev < 2 ^ 63
    → delta_i64 (pos value) (pos prev) ≡ ok (pos value -ℤ pos prev)
unfolding delta_i64
delta_i64-ok value prev h k = ground arith
