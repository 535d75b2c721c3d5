-- ===== src/Segment/Container.antt =====
-- The blocks of a segment file: `write_container_block`, `read_segment_block`, `validate_segment`,
-- `read_segment_records` and `read_record_at` of crates/server/src/storage.rs. crc32fast and zstd
-- are parameters. A file is far shorter than 2 ^ 64 bytes.
pub mod Blocks
pub mod Cut
pub mod Read
pub mod Torn
pub mod Locate
use lol_crawler.Prelude.{
  ℕ, zero, suc, ◌+◌, ◌*◌, ◌%◌, ◌^◌, Bool, true, false, ◌||◌, Option, none, some, List, [], ◌∷◌,
  ◌++◌, length, get_elem?, take, drop, leb, ltb, ◌==◌, if◌then◌else◌,
}
use lol_crawler.Prelude.Result.{Result, ok, err, ensure, ◌>>=◌, ◌>>◌}
use lol_crawler.Columnar.Varint.{Bytes}
use lol_crawler.Columnar.Block.{decode_block}
use lol_crawler.Columnar.Error as Columnar
use lol_crawler.Segment.Error
use lol_crawler.Segment.Error.{
  Try, truncated_header, length_overflow, unknown_magic, truncated_block, compressed_too_large,
  uncompressed_too_large, crc_mismatch, decompress_failed, length_mismatch, no_block, no_record,
  u32_range, out_of_rounds,
}
use lol_crawler.Segment.Little.{to_le, le_at}
use lol_crawler.Segment.Rows.{decode_row_block}

-- "1LSG" and "1COL", little-endian.
abbrev pub seg_magic : ℕ
seg_magic = 0x47534c31

abbrev pub col_magic : ℕ
col_magic = 0x4c4f4331

abbrev pub block_header_len : ℕ
block_header_len = 16

abbrev pub max_segment_block_bytes : ℕ
max_segment_block_bytes = 268435456

abbrev pub known_segment_magic : ℕ → Bool
known_segment_magic magic = magic == seg_magic || magic == col_magic

pub data SegmentBlockKind : Type 0 where
  row columnar : SegmentBlockKind

pub record SegmentBlock : Type 0 where
  pub kind : SegmentBlockKind
  pub block_off : ℕ
  pub next_off : ℕ
  pub records : List Bytes
  pub rec_offsets : List ℕ

-- The four integers of a header, then the compressed bytes.
abbrev pub container : ℕ → ℕ → ℕ → ℕ → Bytes → Bytes
container magic crc clen ulen compressed =
    to_le 4 magic ++ (to_le 4 crc ++ (to_le 4 clen ++ (to_le 4 ulen ++ compressed)))

-- What `invalid_block` makes an error or an end of the file, and what is an error in any case.
pub data Fault : Type 0 where
  invalid hard : Error.Error → Fault

abbrev pub as_hard : {A : Type 0} → Try A → Result Fault A
as_hard (ok a) = ok a
as_hard (err e) = err (Fault.hard e)

abbrev pub invalid_block : {A : Type 0} → Bool → Result Fault A → Try (Option A)
invalid_block strict (ok a) = ok (some a)
invalid_block true (err (Fault.invalid e)) = err e
invalid_block false (err (Fault.invalid e)) = ok none
invalid_block strict (err (Fault.hard e)) = err e

abbrev pub kind_of : ℕ → SegmentBlockKind
kind_of magic = if magic == seg_magic then SegmentBlockKind.row else SegmentBlockKind.columnar

-- 0, 1, 2 and so on.
abbrev pub ordinals : ℕ → List Bytes → List ℕ
ordinals n [] = []
ordinals n (r ∷ rs) = n ∷ ordinals (suc n) rs

abbrev pub decode_columns : Result Columnar.Error (List Bytes) → Result Fault (List Bytes × List ℕ)
decode_columns (ok records) =
    if leb (length records) (2 ^ 32)
    then ok (records, ordinals 0 records)
    else err (Fault.hard u32_range)
decode_columns (err e) = err (Fault.invalid (Error.columnar e))

unfoldable pub decode_kind : SegmentBlockKind → Bytes → Bool → Result Fault (List Bytes × List ℕ)
decode_kind SegmentBlockKind.row block strict = as_hard (decode_row_block block strict)
decode_kind SegmentBlockKind.columnar block strict = decode_columns (decode_block block)

abbrev pub decompressed : Option Bytes → Result Fault Bytes
decompressed none = err (Fault.invalid decompress_failed)
decompressed (some block) = ok block

unfoldable pub write_container_block : (crc : Bytes → ℕ) → Bytes → ℕ → Bytes → Bytes → Try Bytes
write_container_block crc out magic uncompressed compressed = do
  ensure (ltb (length compressed) (2 ^ 32)) u32_range
  ensure (ltb (length uncompressed) (2 ^ 32)) u32_range
  ok (out ++ container magic (crc compressed) (length compressed) (length uncompressed) compressed)

module _ (crc : Bytes → ℕ) (decompress : Bytes → ℕ → Option Bytes) where
  unfoldable pub read_block : Bytes → ℕ → Bool → Result Fault SegmentBlock
  read_block f pos strict = do
    ensure (leb (pos + block_header_len) (length f)) (Fault.invalid truncated_header)
    let magic = le_at 4 f pos
    let want = le_at 4 f (pos + 4)
    let clen = le_at 4 f (pos + 8)
    let ulen = le_at 4 f (pos + 12)
    let next_off = pos + block_header_len + clen
    ensure (ltb next_off (2 ^ 64)) (Fault.hard length_overflow)
    ensure (known_segment_magic magic) (Fault.invalid unknown_magic)
    ensure (leb next_off (length f)) (Fault.invalid truncated_block)
    ensure (leb clen max_segment_block_bytes) (Fault.invalid compressed_too_large)
    ensure (leb ulen max_segment_block_bytes) (Fault.invalid uncompressed_too_large)
    let compressed = take clen (drop (pos + block_header_len) f)
    ensure (crc compressed == want) (Fault.invalid crc_mismatch)
    block ← decompressed (decompress compressed ulen)
    ensure (length block == ulen) (Fault.invalid length_mismatch)
    (records, rec_offsets) ← decode_kind (kind_of magic) block strict
    ok (record {
      kind = kind_of magic;
      block_off = pos;
      next_off = next_off;
      records = records;
      rec_offsets = rec_offsets;
    })

  unfoldable pub read_segment_block : Bytes → ℕ → Bool → Try (Option SegmentBlock)
  unfolding read_block
  read_segment_block f pos strict = invalid_block strict (read_block f pos strict)

  unfoldable pub records_loop : ℕ → Bytes → ℕ → List Bytes → Try (List Bytes)
  records_loop zero f pos records = err out_of_rounds
  records_loop (suc rounds) f pos records =
      if ltb pos (length f)
      then (elim (read_segment_block f pos false) [
        | ok (some block) ↦ records_loop rounds f block.next_off (records ++ block.records)
        | ok none ↦ ok records
        | err e ↦ err e
      ])
      else ok records

  -- Each round takes sixteen bytes at least.
  unfoldable pub read_segment_records : Bytes → Try (List Bytes)
  read_segment_records f = records_loop (suc (length f)) f 0 []

  -- `rec_offsets.iter().position(|off| *off == rec_off)`, and the record there.
  abbrev pub record_at : ℕ → List ℕ → List Bytes → Option Bytes
  record_at rec_off (off ∷ offs) (r ∷ rs) =
      if off == rec_off then some r else record_at rec_off offs rs
  record_at rec_off _ _ = none

  abbrev pub located : ℕ → SegmentBlockKind → SegmentBlock → Option Bytes
  located rec_off SegmentBlockKind.row block = record_at rec_off block.rec_offsets block.records
  located rec_off SegmentBlockKind.columnar block = get_elem? block.records rec_off

  abbrev pub found : Option Bytes → Try Bytes
  found none = err no_record
  found (some r) = ok r

  abbrev pub found_in : ℕ → Option SegmentBlock → Try Bytes
  found_in rec_off none = err no_block
  found_in rec_off (some block) = found (located rec_off block.kind block)

  unfoldable pub read_record_at : Bytes → ℕ → ℕ → Try Bytes
  read_record_at f block_off rec_off = do
    block ← read_segment_block f block_off true
    found_in rec_off block

-- The byte behind the last block that is whole.
unfoldable pub validate_loop : ℕ → Bytes → ℕ → Try ℕ
validate_loop zero seg pos = err out_of_rounds
validate_loop (suc rounds) seg pos =
    let clen = le_at 4 seg (pos + 8) in
    let rest = validate_loop rounds seg (pos + block_header_len + clen) in
    if leb (pos + block_header_len) (length seg)
    then (if known_segment_magic (le_at 4 seg pos)
        then (if leb (pos + block_header_len + clen) (length seg) then rest else ok pos)
        else ok pos)
    else ok pos

unfoldable pub validate_segment : Bytes → Try ℕ
validate_segment seg = validate_loop (suc (length seg)) seg 0
