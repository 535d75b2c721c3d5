-- ===== src/Columnar/Varint.antt =====
-- `write_varint` and `read_varint_at` of crates/server/src/columnar.rs. A byte is a number below
-- 256 and a byte vector a list of them.
pub mod RoundTrip
pub mod Bounds
use lol_crawler.Prelude.{
  ℕ, zero, suc, ◌+◌, ◌*◌, ◌/◌, ◌%◌, ◌^◌, List, [], ◌∷◌, ◌++◌, Option, none, some, bit_and, bit_or,
  not, ◌&&◌, ◌==◌, if◌then◌else◌, get_elem?,
}
use lol_crawler.Prelude.Result.{ok, err}
use lol_crawler.Columnar.Error.{Try, truncated_varint, varint_overflow, varint_too_long}

abbrev pub Bytes : Type 0
Bytes = List ℕ

-- One round for each byte; a u64 has ten groups of seven bits at most.
unfoldable pub write_loop : ℕ → Bytes → ℕ → Bytes
write_loop zero out value = out
write_loop (suc rounds) out value =
    let byte = bit_and (value % 256) 0x7f in
    let more = write_loop rounds (out ++ (bit_or byte 0x80 ∷ [])) (value / 2 ^ 7) in
    if value / 2 ^ 7 == 0 then out ++ (byte ∷ []) else more

unfoldable pub write_varint : Bytes → ℕ → Bytes
write_varint out value = write_loop 10 out value

-- `for idx in 0..10`: `rounds` is what is left of it. The shift of a u64 drops the high bits.
unfoldable pub read_loop : ℕ → Bytes → ℕ → ℕ → ℕ → Try (ℕ × ℕ)
read_loop zero bytes pos idx out = err varint_too_long
read_loop (suc rounds) bytes pos idx out = elim (get_elem? bytes pos) [
  | none ↦ err truncated_varint
  | some byte ↦
      let out' = bit_or out (bit_and byte 0x7f * 2 ^ (idx * 7) % 2 ^ 64) in
      let more = read_loop rounds bytes (pos + 1) (idx + 1) out' in
      if idx == 9 && not (bit_and byte 0xfe == 0)
      then err varint_overflow
      else if bit_and byte 0x80 == 0
      then ok (out', pos + 1)
      else more
]

-- The value and the position behind it.
unfoldable pub read_varint_at : Bytes → ℕ → Try (ℕ × ℕ)
read_varint_at bytes pos = read_loop 10 bytes pos 0 0

-- What `write_varint` writes for a value.
unfoldable pub varint : ℕ → Bytes
varint value = write_varint [] value
