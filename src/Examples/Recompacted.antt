-- ===== src/Examples/Recompacted.antt =====
-- A segment of one record is recompacted.
use lol_crawler.Prelude.{◌≡◌, refl, ◌<◌, true, none, some, List, [], ◌∷◌, map, length, arith}
use lol_crawler.Prelude.Result.{ok}
use lol_crawler.Columnar.Varint.{Bytes, write_varint, write_loop, varint}
use lol_crawler.Columnar.Delta.{zigzag_i64, delta_u64, delta_i64, narrow_i64}
use lol_crawler.Columnar.Encode.{encode_record}
use lol_crawler.Columnar.Proto.{
  delimited, field, fields, packed_u32, packed_sint64, participant_bytes, kill_bytes, repeated,
  timeline_bytes, timeline_field, record_bytes,
}
use lol_crawler.Columnar.Block.{encode_block, encode_records}
use lol_crawler.Columnar.RoundTrip.Payload.{layout, encode_payload-layout}
use lol_crawler.Columnar.RoundTrip.Whole.{decode_block-encode_all, all_equal_self}
use lol_crawler.Segment.Little.{to_le, le_at}
use lol_crawler.Segment.Rows.{push_row, decode_row_block, row_loop}
use lol_crawler.Segment.Index.{IdxEntry, write_entries}
use lol_crawler.Segment.Container.{read_block, read_segment_block, decode_kind}
use lol_crawler.Segment.Container.Locate.{AllLocated, Reads}
use lol_crawler.Segment.Writer.{SegmentWriter, append}
use lol_crawler.Segment.Writer.Stored.{place}
use lol_crawler.Segment.Writer.Flushed.{flushed_writer}
use lol_crawler.Segment.Layout.{SegmentLayout, entries_of, layout_loop, read_segment_layout}
use lol_crawler.Segment.Recompact.{Disk, RecompactOutcome, chunks, recompact_segment}
use lol_crawler.Segment.Recompact.Succeeds.{IsChunk, recompact_segment-succeeds}
use lol_crawler.Examples.Blocks.{
  match, matches, match_cols, match_size, match_fixed, match_run, match-IsRecord, decode_match,
}
use lol_crawler.Examples.Segments.{crc, compress, decompress, decode, some_packs}

match_encodes : encode_block decode_match (map record_bytes matches) ≡ ok (layout 1 match_cols)
unfolding encode_block encode_records encode_record delta_u64 delta_i64 narrow_i64
match_encodes = rw (encode_payload-layout 1 match_cols match_fixed (rw match_size (omega arith))) (
    rw
      (decode_block-encode_all matches (match-IsRecord, tt) match_run (omega arith)
        (rw match_size (omega arith)))
      (rw (all_equal_self (map record_bytes matches)) refl))

-- A row block of the record's bytes, behind a header with their length.
abbrev one_waiting : SegmentWriter
one_waiting =
    append record_bytes (record { date = []; seg = []; idx = []; buf = []; pending = [] }) match

abbrev old_seg : Bytes
old_seg =
    (flushed_writer crc compress decompress record_bytes some_packs one_waiting one_waiting.buf).seg

record_size : length (record_bytes match) < 1000
unfolding delimited field fields packed_u32 packed_sint64 participant_bytes kill_bytes repeated
    timeline_bytes timeline_field record_bytes varint write_varint write_loop zigzag_i64
record_size = omega arith

abbrev old_layout : SegmentLayout
old_layout = record {
  records = record_bytes match ∷ [];
  idx_entries = record { game_id = 5; block_off = 0; rec_off = 0 } ∷ [];
  has_row_blocks = true;
  torn_tail = none;
}

old-layout : read_segment_layout decode crc decompress old_seg ≡ ok old_layout
unfolding delimited field fields packed_u32 packed_sint64 participant_bytes kill_bytes repeated
    timeline_bytes timeline_field record_bytes varint write_varint write_loop zigzag_i64
    read_segment_layout layout_loop entries_of append push_row to_le le_at read_segment_block
    read_block decode_kind decode_row_block row_loop
old-layout = refl

abbrev old_disk : Disk
old_disk = record { seg = old_seg; idx = none; seg_tmp = none; idx_tmp = none }

one-IsChunk : IsChunk crc compress decompress decode_match decode (record_bytes match ∷ [])
one-IsChunk = record {
  payload = layout 1 match_cols;
  compressed = layout 1 match_cols;
  encodes = match_encodes;
  compresses = refl;
  payload_fits = rw match_size (omega arith);
  compressed_fits = rw match_size (omega arith);
  count_fits = omega arith;
  decodable = ((match, refl), tt);
}

recompact_segment-succeeds_example :
    (seg : Bytes) × (es : List IdxEntry) × (out : RecompactOutcome) × (recompact_segment crc
        compress decompress decode_match decode old_disk
      ≡ (
        ok out,
        record { seg = seg; idx = some (write_entries [] es); seg_tmp = none; idx_tmp = none },
      ))
    × AllLocated (Reads crc decompress seg) (map place es) (record_bytes match ∷ [])
unfolding chunks
recompact_segment-succeeds_example =
    recompact_segment-succeeds crc compress decompress decode_match decode old_disk old_layout
      some_packs old-layout refl refl (one-IsChunk, tt) (omega arith)
