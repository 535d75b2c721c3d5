-- ===== src/Columnar/Payload.antt =====
-- `encode_payload` and `Manifest::parse` of crates/server/src/columnar.rs: the block's header, the
-- lengths of the streams, and the streams themselves.
use lol_crawler.Prelude.{
  ℕ, zero, suc, ◌+◌, ◌-◌, ◌^◌, Bool, true, false, ◌&&◌, List, [], ◌∷◌, ◌++◌, length, take, drop,
  get_or, ltb, leb, ◌==◌, if◌then◌else◌,
}
use lol_crawler.Prelude.Result.{ok, err, ensure, ◌>>=◌, ◌>>◌}
use lol_crawler.Columnar.Error.{
  Error, Try, truncated_header, bad_magic, unsupported_version, too_many_columns,
  truncated_manifest, lengths_overflow, truncated_data, trailing_bytes,
}
use lol_crawler.Columnar.Varint.{Bytes, write_varint, read_varint_at}
use lol_crawler.Columnar.Delta.{to_usize}
use lol_crawler.Columnar.Stream.{nmisc}
use lol_crawler.Columnar.Cols.{Cols}

-- b"LCOL".
abbrev pub magic : Bytes
magic = 0x4c ∷ 0x43 ∷ 0x4f ∷ 0x4c ∷ []

abbrev pub version : ℕ
version = 1

-- `==` on byte vectors.
abbrev pub bytes_eq : Bytes → Bytes → Bool
bytes_eq [] [] = true
bytes_eq (a ∷ as') (b ∷ bs) = a == b && bytes_eq as' bs
bytes_eq _ _ = false

-- `checked_add` on usize.
abbrev pub checked_add : ℕ → ℕ → Error → Try ℕ
checked_add a b e = if ltb (a + b) (2 ^ 64) then ok (a + b) else err e

-- `try_fold` of `checked_add` over the lengths.
unfoldable pub sum_lengths : Error → ℕ → List ℕ → Try ℕ
sum_lengths e acc [] = ok acc
sum_lengths e acc (len ∷ lens) = do acc' ← checked_add acc len e; sum_lengths e acc' lens

abbrev pub lengths : List Bytes → List ℕ
lengths [] = []
lengths (col ∷ cols) = length col ∷ lengths cols

unfoldable pub write_lengths : Bytes → List Bytes → Bytes
write_lengths out [] = out
write_lengths out (col ∷ cols) = write_lengths (write_varint out (length col)) cols

unfoldable pub write_streams : Bytes → List Bytes → Bytes
write_streams out [] = out
write_streams out (col ∷ cols) = write_streams (out ++ col) cols

-- Fixed, then stat, then rune streams.
abbrev pub streams : Cols → List Bytes
streams cols = cols.fixed ++ (cols.stat ++ cols.rune)

unfoldable pub encode_payload : ℕ → Cols → Try Bytes
encode_payload records cols = do
  n ← checked_add nmisc (length cols.stat) too_many_columns
  total_cols ← checked_add n (length cols.rune) too_many_columns
  let out1 = write_varint (magic ++ (version ∷ [])) records
  let out2 = write_varint out1 (length cols.stat)
  let out3 = write_varint out2 (length cols.rune)
  let out4 = write_lengths out3 (streams cols)
  data_len ← sum_lengths lengths_overflow 0 (lengths (streams cols))
  ok (write_streams out4 (streams cols))

pub record Manifest : Type 0 where
  pub records : ℕ
  pub stat_cols : ℕ
  pub rune_cols : ℕ
  pub columns : List Bytes

-- `to_usize(read_varint_at(payload, &mut pos)?)?`.
unfoldable pub read_usize : Bytes → ℕ → Try (ℕ × ℕ)
read_usize payload pos = do (v, pos') ← read_varint_at payload pos; n ← to_usize v; ok (n, pos')

unfoldable pub read_lengths : ℕ → Bytes → ℕ → List ℕ → Try (List ℕ × ℕ)
read_lengths zero payload pos lens = ok (lens, pos)
read_lengths (suc n) payload pos lens = do
  (len, pos') ← read_usize payload pos
  read_lengths n payload pos' (lens ++ (len ∷ []))

-- `&payload[off..off + len]` for each length.
unfoldable pub slices : Bytes → ℕ → List ℕ → List Bytes
slices payload off [] = []
slices payload off (len ∷ lens) = take len (drop off payload) ∷ slices payload (off + len) lens

-- The part of `Manifest::parse` behind the three counts, from the position behind them.
unfoldable pub parse_columns : Bytes → ℕ → ℕ → ℕ → ℕ → Try Manifest
parse_columns payload pos records stat_cols rune_cols = do
  dynamic_cols ← checked_add stat_cols rune_cols too_many_columns
  total_cols ← checked_add nmisc dynamic_cols too_many_columns
  ensure (leb total_cols (length payload - pos)) truncated_manifest
  (lens, data_start) ← read_lengths total_cols payload pos []
  data_len ← sum_lengths lengths_overflow 0 lens
  data_end ← checked_add data_start data_len lengths_overflow
  ensure (leb data_end (length payload)) truncated_data
  ensure (data_end == length payload) trailing_bytes
  ok (record {
    records = records;
    stat_cols = stat_cols;
    rune_cols = rune_cols;
    columns = slices payload data_start lens;
  })

-- Behind the five bytes of the header: the three counts, then the columns.
unfoldable pub parse_counts : Bytes → Try Manifest
parse_counts payload = do
  (records, pos1) ← read_usize payload 5
  (stat_cols, pos2) ← read_usize payload pos1
  (rune_cols, pos3) ← read_usize payload pos2
  parse_columns payload pos3 records stat_cols rune_cols

unfoldable pub parse : Bytes → Try Manifest
parse payload = do
  ensure (leb 5 (length payload)) truncated_header
  ensure (bytes_eq (take 4 payload) magic) bad_magic
  ensure (get_or payload 4 0 == version) unsupported_version
  parse_counts payload
