-- ===== src/Examples/Codes.antt =====
-- Varints, zigzag codes and deltas.
use lol_crawler.Prelude.{ℕ, ◌+◌, ◌≤◌, ◌<◌, ◌≡◌, refl, [], ◌∷◌, ◌++◌, length, drop, arith}
use lol_crawler.Prelude.Int.{pos, negsuc, IsI64, IsU64}
use lol_crawler.Prelude.Result.{ok}
use lol_crawler.Columnar.Varint.{Bytes, read_varint_at, read_loop, varint}
use lol_crawler.Columnar.Varint.RoundTrip.{read_varint_at-varint}
use lol_crawler.Columnar.Varint.Bounds.{read_varint_at_bounds}
use lol_crawler.Columnar.Delta.{
  zigzag_i64, unzigzag_i64, delta_u64, delta_i64, add_delta_u64, add_delta_i64, narrow_i64,
}
use lol_crawler.Columnar.Delta.Laws.{
  unzigzag-zigzag, zigzag-unzigzag, add_delta-delta_u64, add_delta-delta_i64,
}

abbrev two_varints : Bytes
two_varints = 7 ∷ varint 300 ++ (9 ∷ [])

read_varint_at-varint_example :
    (pos' : ℕ) × (read_varint_at two_varints 1 ≡ ok (300, pos'))
    × (drop pos' two_varints ≡ 9 ∷ [])
    × (pos' ≤ length two_varints)
read_varint_at-varint_example = read_varint_at-varint 300 two_varints 1 (9 ∷ []) (omega arith) refl

abbrev three_bytes : Bytes
three_bytes = 172 ∷ 2 ∷ 9 ∷ []

three_bytes_read : read_varint_at three_bytes 0 ≡ ok (300, 2)
unfolding read_varint_at read_loop
three_bytes_read = refl

read_varint_at_bounds_example : IsU64 300 × (0 < 2) × (2 ≤ 0 + 10) × (2 ≤ length three_bytes)
read_varint_at_bounds_example =
    read_varint_at_bounds three_bytes 0 (omega arith, (omega arith, (omega arith, tt)))
      three_bytes_read

unzigzag-zigzag_example : unzigzag_i64 (zigzag_i64 (negsuc 4)) ≡ negsuc 4
unzigzag-zigzag_example = unzigzag-zigzag (negsuc 4) (omega arith, omega arith)

zigzag-unzigzag_example : (zigzag_i64 (unzigzag_i64 9) ≡ 9) × IsI64 (unzigzag_i64 9)
zigzag-unzigzag_example = zigzag-unzigzag 9 (omega arith)

delta_u64_run : delta_u64 5 8 ≡ ok (negsuc 2)
unfolding delta_u64 narrow_i64
delta_u64_run = refl

add_delta-delta_u64_example : (add_delta_u64 8 (negsuc 2) ≡ ok 5) × IsI64 (negsuc 2)
add_delta-delta_u64_example = add_delta-delta_u64 5 8 (omega arith) delta_u64_run

delta_i64_run : delta_i64 (negsuc 1) (pos 3) ≡ ok (negsuc 4)
unfolding delta_i64 narrow_i64
delta_i64_run = refl

add_delta-delta_i64_example : (add_delta_i64 (pos 3) (negsuc 4) ≡ ok (negsuc 1)) × IsI64 (negsuc 4)
add_delta-delta_i64_example =
    add_delta-delta_i64 (negsuc 1) (pos 3) (omega arith, omega arith) delta_i64_run
