-- ===== src/Examples/Segments.antt =====
-- A segment of one record: written, flushed, torn, read and recompacted. The stand-ins for zstd and
-- crc32fast keep the bytes as they are.
use lol_crawler.Prelude.{
  ℕ, ◌≡◌, ◌≢◌, refl, sym, true, false, Option, none, some, [], ◌∷◌, ◌++◌, map, length, drop, arith,
}
use lol_crawler.Prelude.Result.{ok, err}
use lol_crawler.Columnar.Varint.{Bytes}
use lol_crawler.Record.{MatchRecord}
use lol_crawler.Segment.Error.{out_of_rounds}
use lol_crawler.Segment.Little.{to_le}
use lol_crawler.Segment.Rows.{push_row, decode_row_block}
use lol_crawler.Segment.Rows.RoundTrip.{rows, decode_row_block-rows, decode_row_block-finishes}
use lol_crawler.Segment.Index.{IdxEntry, write_entries, parse_idx_entries}
use lol_crawler.Segment.Index.RoundTrip.{entries_bytes, parse_idx_entries-write_entries}
use lol_crawler.Segment.Container.{read_segment_records}
use lol_crawler.Segment.Container.Blocks.{Block, block_bytes, IsIntact}
use lol_crawler.Segment.Container.Torn.{IsTail, torn}
use lol_crawler.Segment.Container.Read.{blocks_bytes, read_segment_records-blocks}
use lol_crawler.Segment.Container.Locate.{AllLocated, Reads}
use lol_crawler.Segment.Writer.{SegmentWriter, open_writer, append, flush}
use lol_crawler.Segment.Writer.Stored.{place, game_ids, IsWriter, append-IsWriter}
use lol_crawler.Segment.Writer.Flushed.{
  IsPacker, new_block, flushed_writer, new-IsIntact, flushed-IsWriter, flush-IsWriter, stored-read,
  open_writer-torn,
}
use lol_crawler.Segment.Recompact.{Disk, recompact_segment}
use lol_crawler.Segment.Recompact.Keeps.{Kept, recompact_segment-Kept}
use lol_crawler.Examples.Blocks.{match, decode_match}

abbrev pub crc : Bytes → ℕ
crc bytes = 7

abbrev pub compress : Bytes → Option Bytes
compress bytes = some bytes

abbrev pub decompress : Bytes → ℕ → Option Bytes
decompress bytes n = some bytes

abbrev pub encode_to_vec : MatchRecord → Bytes
encode_to_vec rec = rec.game_id ∷ (1 ∷ [])

abbrev pub decode : Bytes → Option MatchRecord
decode bytes = some match

pub some_packs : IsPacker crc compress decompress
some_packs = record { crc_u32 = λ c. omega arith; unpacks = λ b c e. sym e }

abbrev new_writer : SegmentWriter
new_writer = record { date = []; seg = []; idx = []; buf = []; pending = [] }

new-IsWriter : IsWriter crc compress decompress encode_to_vec new_writer [] []
new-IsWriter = record {
  blocks = [];
  entries = [];
  intact = tt;
  is_placed = tt;
  seg = refl;
  records = refl;
  idx = refl;
  places = refl;
  ids = refl;
  buf = refl;
  row_sizes = tt;
  offsets = refl;
  pending_ids = refl;
}

-- With one record waiting.
abbrev writer : SegmentWriter
writer = append encode_to_vec new_writer match

writer-IsWriter : IsWriter crc compress decompress encode_to_vec writer [] (match ∷ [])
writer-IsWriter =
    append-IsWriter crc compress decompress encode_to_vec new_writer [] [] match new-IsWriter
      (omega arith) (omega arith)

buf_size : length writer.buf ≡ 6
unfolding append push_row to_le
buf_size = refl

flush-IsWriter_example :
    (w' : SegmentWriter) × (flush crc compress writer ≡ ok w')
    × IsWriter crc compress decompress encode_to_vec w' (match ∷ []) []
flush-IsWriter_example =
    flush-IsWriter crc compress decompress encode_to_vec some_packs writer [] (match ∷ [])
      writer.buf writer-IsWriter refl (omega (arith, buf_size)) (omega (arith, buf_size))

-- With that record in the files.
abbrev full : SegmentWriter
full = flushed_writer crc compress decompress encode_to_vec some_packs writer writer.buf

full-IsWriter : IsWriter crc compress decompress encode_to_vec full (match ∷ []) []
full-IsWriter =
    flushed-IsWriter crc compress decompress encode_to_vec some_packs writer [] (match ∷ [])
      writer.buf writer-IsWriter refl (omega (arith, buf_size)) (omega (arith, buf_size))

seg_size : length full.seg ≡ 22
unfolding append push_row to_le
seg_size = refl

stored-read_example :
    (read_segment_records crc decompress full.seg ≡ ok ((5 ∷ (1 ∷ [])) ∷ []))
    × AllLocated
        (Reads crc decompress full.seg)
        (map place full-IsWriter.entries)
        ((5 ∷ (1 ∷ [])) ∷ [])
    × (full.idx ≡ entries_bytes full-IsWriter.entries)
    × (game_ids full-IsWriter.entries ≡ 5 ∷ [])
stored-read_example =
    stored-read crc compress decompress encode_to_vec some_packs full (match ∷ []) [] full-IsWriter
      (omega (arith, seg_size))

abbrev block : Block
block = new_block crc compress decompress encode_to_vec some_packs writer writer.buf (match ∷ [])

block-IsIntact : IsIntact crc decompress block
block-IsIntact =
    new-IsIntact crc compress decompress encode_to_vec some_packs writer [] (match ∷ []) writer.buf
      writer-IsWriter refl (omega (arith, buf_size)) (omega (arith, buf_size))

-- The first byte of another block, and no more.
block-IsTail : IsTail crc decompress (49 ∷ [])
unfolding append push_row to_le
block-IsTail = torn (record {
  block = block;
  intact = block-IsIntact;
  missing = drop 1 (block_bytes crc decompress block);
  cut = refl;
  some_missing = λ e. cc e;
})

read_segment_records-blocks_example :
    read_segment_records crc decompress (blocks_bytes crc decompress (block ∷ []) ++ (49 ∷ []))
    ≡ ok ((5 ∷ (1 ∷ [])) ∷ [])
unfolding append push_row to_le
read_segment_records-blocks_example =
    read_segment_records-blocks crc decompress (block ∷ []) (49 ∷ []) (block-IsIntact, tt)
      block-IsTail (omega arith)

open_writer-torn_example :
    (w' : SegmentWriter) × (open_writer [] (record { seg = full.seg ++ (49 ∷ []); idx = full.idx })
      ≡ ok w')
    × IsWriter crc compress decompress encode_to_vec w' (match ∷ []) []
unfolding append push_row to_le
open_writer-torn_example =
    open_writer-torn crc compress decompress encode_to_vec some_packs full (match ∷ []) [] (49 ∷ [])
      [] full-IsWriter block-IsTail (omega arith)

decode_row_block-rows_example :
    decode_row_block (rows ((5 ∷ (1 ∷ [])) ∷ ((6 ∷ []) ∷ []))) true
    ≡ ok ((5 ∷ (1 ∷ [])) ∷ ((6 ∷ []) ∷ []), 0 ∷ (6 ∷ []))
unfolding to_le
decode_row_block-rows_example =
    decode_row_block-rows ((5 ∷ (1 ∷ [])) ∷ ((6 ∷ []) ∷ [])) true (omega arith, (omega arith, tt))
      (omega arith)

decode_row_block-finishes_example :
    decode_row_block (9 ∷ (0 ∷ (0 ∷ (0 ∷ (1 ∷ []))))) false ≢ err out_of_rounds
decode_row_block-finishes_example = decode_row_block-finishes (9 ∷ (0 ∷ (0 ∷ (0 ∷ (1 ∷ []))))) false

abbrev entry : IdxEntry
entry = record { game_id = 5; block_off = 22; rec_off = 6 }

parse_idx_entries-write_entries_example :
    parse_idx_entries (write_entries [] (entry ∷ [])) ≡ some (entry ∷ [])
parse_idx_entries-write_entries_example =
    parse_idx_entries-write_entries (entry ∷ [])
      (record { game_id = omega arith; block_off = omega arith; rec_off = omega arith }, tt)

abbrev disk : Disk
disk = record { seg = full.seg; idx = some full.idx; seg_tmp = some (1 ∷ []); idx_tmp = none }

recompact_segment-Kept_example :
    Kept crc compress decompress decode_match decode disk
      (recompact_segment crc compress decompress decode_match decode disk)
    × ((recompact_segment crc compress decompress decode_match decode disk).1.seg_tmp ≡ none)
    × ((recompact_segment crc compress decompress decode_match decode disk).1.idx_tmp ≡ none)
recompact_segment-Kept_example =
    recompact_segment-Kept crc compress decompress decode_match decode disk
