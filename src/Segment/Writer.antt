-- ===== src/Segment/Writer.antt =====
-- `SegmentWriter` of crates/server/src/storage.rs: records wait in memory for the next block, and a
-- flush appends the block and its index entries. The files are the writer's fields; zstd, crc32fast
-- and the encoder that prost derives for `MatchRecord` are parameters.
pub mod Stored
pub mod Flushed
pub mod Joins
pub mod Opens
use lol_crawler.Prelude.{
  ℕ, ◌+◌, ◌%◌, ◌^◌, Bool, true, false, Option, none, some, List, [], ◌∷◌, ◌++◌, length, take, leb,
  ltb, map, if◌then◌else◌,
}
use lol_crawler.Prelude.Result.{Result, ok, err, ◌>>=◌}
use lol_crawler.Prelude.Maps.{String, str_eq}
use lol_crawler.Columnar.Varint.{Bytes}
use lol_crawler.Record.{MatchRecord}
use lol_crawler.Segment.Error.{Try, compress_failed}
use lol_crawler.Segment.Rows.{push_row}
use lol_crawler.Segment.Index.{IdxEntry, write_entries}
use lol_crawler.Segment.Container.{seg_magic, container, validate_segment}

-- The contents of a day's two files.
pub record Files : Type 0 where
  pub seg : Bytes
  pub idx : Bytes

pub record SegmentWriter : Type 0 where
  pub date : String
  pub seg : Bytes
  pub idx : Bytes
  pub buf : Bytes
  pub pending : List (ℕ × ℕ)

abbrev pub block_target_bytes : ℕ
block_target_bytes = 4194304

-- The segment is cut behind its last whole block.
unfoldable pub open_files : Files → Try Files
open_files day = do
  valid ← validate_segment day.seg
  ok (record {
    seg = if ltb valid (length day.seg) then take valid day.seg else day.seg;
    idx = day.idx;
  })

unfoldable pub open_writer : String → Files → Try SegmentWriter
unfolding open_files
open_writer today day = do
  files ← open_files day
  ok (record { date = today; seg = files.seg; idx = files.idx; buf = []; pending = [] })

abbrev pub needs_roll : String → SegmentWriter → Bool
needs_roll today w = if str_eq today w.date then false else true

unfoldable pub append : (MatchRecord → Bytes) → SegmentWriter → MatchRecord → SegmentWriter
append encode_to_vec w rec = record {
  date = w.date;
  seg = w.seg;
  idx = w.idx;
  buf = push_row w.buf (encode_to_vec rec);
  pending = w.pending ++ ((rec.game_id, length w.buf % 2 ^ 32) ∷ []);
}

abbrev pub should_flush : SegmentWriter → Bool
should_flush w = leb block_target_bytes (length w.buf)

abbrev pub pending_entry : ℕ → ℕ × ℕ → IdxEntry
pending_entry block_off (game_id, rec_off) = record {
  game_id = game_id;
  block_off = block_off;
  rec_off = rec_off;
}

module _ (crc : Bytes → ℕ) (compress : Bytes → Option Bytes) where
  abbrev pub flushed : SegmentWriter → Option Bytes → Try SegmentWriter
  flushed w none = err compress_failed
  flushed w (some compressed) = ok (record {
    date = w.date;
    seg =
        w.seg
        ++ container seg_magic (crc compressed) (length compressed % 2 ^ 32) (length w.buf % 2 ^ 32)
            compressed;
    idx = w.idx ++ write_entries [] (map (pending_entry (length w.seg)) w.pending);
    buf = [];
    pending = [];
  })

  abbrev pub flush_pending : SegmentWriter → List (ℕ × ℕ) → Try SegmentWriter
  flush_pending w [] = ok w
  flush_pending w (p ∷ ps) = flushed w (compress w.buf)

  unfoldable pub flush : SegmentWriter → Try SegmentWriter
  flush w = flush_pending w w.pending

  -- The files of the old day as they are left, and the writer of the new one.
  unfoldable pub roll : String → Files → SegmentWriter → Try (Files × SegmentWriter)
  unfolding flush open_files
  roll today day w = do
    old ← flush w
    files ← open_files day
    ok (
      record { seg = old.seg; idx = old.idx },
      record {
        date = today;
        seg = files.seg;
        idx = files.idx;
        buf = old.buf;
        pending = old.pending;
      },
    )
