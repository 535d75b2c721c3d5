-- ===== src/Columnar/Delta.antt =====
-- Signed values in the streams of crates/server/src/columnar.rs: the zigzag code, the deltas
-- between neighbours, and the checked narrowing of integers. An i64 is an integer in its range;
-- an i128 is an integer, since a difference of two 64-bit values fits it.
pub mod Laws
use lol_crawler.Prelude.{
  ℕ, zero, suc, ◌+◌, ◌-◌, ◌*◌, ◌/◌, ◌%◌, ◌^◌, ◌≤◌, ◌<◌, bit_xor, ltb, leb, ◌&&◌, ◌==◌,
  if◌then◌else◌,
}
use lol_crawler.Prelude.Int.{
  ℤ, pos, negsuc, pos_part, neg_part, sub_ℕ, ◌+ℤ◌, ◌-ℤ◌, is_i64, as_u64, as_i64,
}
use lol_crawler.Prelude.Result.{ok, err}
use lol_crawler.Columnar.Error.{Try, usize_range, u32_range, i64_range, delta_range}

-- `value >> 63` on an i64 copies the sign bit.
abbrev shr_63 : ℤ → ℤ
shr_63 (pos n) = pos 0
shr_63 (negsuc n) = negsuc 0

unfoldable pub zigzag_i64 : ℤ → ℕ
zigzag_i64 value = bit_xor (as_u64 value * 2 % 2 ^ 64) (as_u64 (shr_63 value))

abbrev neg_ℕ : ℕ → ℤ
neg_ℕ n = sub_ℕ 0 n

-- `^` on two i64 is that of their bit patterns; `value & 1` is `value % 2`.
unfoldable pub unzigzag_i64 : ℕ → ℤ
unzigzag_i64 value = as_i64 (bit_xor (as_u64 (as_i64 (value / 2))) (as_u64 (neg_ℕ (value % 2))))

-- A usize has 64 bits.
unfoldable pub to_usize : ℕ → Try ℕ
to_usize value = if ltb value (2 ^ 64) then ok value else err usize_range

unfoldable pub read_u32 : ℕ → Try ℕ
read_u32 value = if ltb value (2 ^ 32) then ok value else err u32_range

unfoldable pub narrow_i64 : ℤ → Try ℤ
narrow_i64 delta = if is_i64 delta then ok delta else err i64_range

unfoldable pub delta_u64 : ℕ → ℕ → Try ℤ
unfolding narrow_i64
delta_u64 value prev = narrow_i64 (sub_ℕ value prev)

unfoldable pub delta_i64 : ℤ → ℤ → Try ℤ
unfolding narrow_i64
delta_i64 value prev = narrow_i64 (value -ℤ prev)

unfoldable pub add_delta_u64 : ℕ → ℤ → Try ℕ
add_delta_u64 prev delta =
    let value = pos prev +ℤ delta in
    if neg_part value == 0 && ltb (pos_part value) (2 ^ 64)
    then ok (pos_part value)
    else err delta_range

unfoldable pub add_delta_i64 : ℤ → ℤ → Try ℤ
add_delta_i64 prev delta =
    let value = prev +ℤ delta in if is_i64 value then ok value else err delta_range

unfoldable pub add_delta_u32 : ℕ → ℤ → Try ℕ
add_delta_u32 prev delta =
    let value = pos prev +ℤ delta in
    if neg_part value == 0 && ltb (pos_part value) (2 ^ 32)
    then ok (pos_part value)
    else err delta_range
