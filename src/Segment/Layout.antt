-- ===== src/Segment/Layout.antt =====
-- What a segment holds, as `read_segment_layout` of crates/server/src/storage.rs finds it: the
-- records and their index entries up to the first block that is not whole. The decoder that prost
-- derives for `MatchRecord` is a parameter.
pub mod Cut
use lol_crawler.Prelude.{
  ℕ, zero, suc, ◌+◌, ◌-◌, Bool, true, false, ◌||◌, Option, none, some, List, [], ◌∷◌, ◌++◌, length,
  ltb, ◌==◌, if◌then◌else◌,
}
use lol_crawler.Prelude.Result.{ok, err, ensure, ◌>>=◌, ◌>>◌}
use lol_crawler.Columnar.Varint.{Bytes}
use lol_crawler.Record.{MatchRecord}
use lol_crawler.Segment.Error.{Try, offset_count, undecodable, torn_tail, out_of_rounds}
use lol_crawler.Segment.Index.{IdxEntry}
use lol_crawler.Segment.Container.{SegmentBlockKind, SegmentBlock, read_segment_block}

pub record SegmentTornTail : Type 0 where
  pub valid_len : ℕ
  pub dropped_bytes : ℕ

pub record SegmentLayout : Type 0 where
  pub records : List Bytes
  pub idx_entries : List IdxEntry
  pub has_row_blocks : Bool
  pub torn_tail : Option SegmentTornTail

abbrev pub is_row : SegmentBlockKind → Bool
is_row SegmentBlockKind.row = true
is_row SegmentBlockKind.columnar = false

abbrev pub decoded_id : Option MatchRecord → Try ℕ
decoded_id none = err undecodable
decoded_id (some rec) = ok rec.game_id

module _ (decode : Bytes → Option MatchRecord) where
  abbrev pub decode_game_id : Bytes → Try ℕ
  decode_game_id raw = decoded_id (decode raw)

  -- The entries of one block, `zip` ending with the shorter list.
  unfoldable pub entries_of : ℕ → List Bytes → List ℕ → Try (List IdxEntry)
  entries_of block_off (raw ∷ raws) (rec_off ∷ rec_offs) = do
    id ← decode_game_id raw
    es ← entries_of block_off raws rec_offs
    ok (record { game_id = id; block_off = block_off; rec_off = rec_off } ∷ es)
  entries_of block_off [] _ = ok []
  entries_of block_off (raw ∷ raws) [] = ok []

  module _ (crc : Bytes → ℕ) (decompress : Bytes → ℕ → Option Bytes) where
    abbrev pub torn_layout : Bytes → ℕ → SegmentLayout → SegmentLayout
    torn_layout f pos acc = record {
      records = acc.records;
      idx_entries = acc.idx_entries;
      has_row_blocks = acc.has_row_blocks;
      torn_tail = some (record { valid_len = pos; dropped_bytes = length f - pos });
    }

    abbrev pub with_block : SegmentBlock → List IdxEntry → SegmentLayout → SegmentLayout
    with_block block es acc = record {
      records = acc.records ++ block.records;
      idx_entries = acc.idx_entries ++ es;
      has_row_blocks = acc.has_row_blocks || is_row block.kind;
      torn_tail = acc.torn_tail;
    }

    abbrev pub block_entries : SegmentBlock → Try (List IdxEntry)
    block_entries block = do
      ensure (length block.records == length block.rec_offsets) offset_count
      entries_of block.block_off block.records block.rec_offsets

    unfoldable pub layout_loop : ℕ → Bytes → ℕ → SegmentLayout → Try SegmentLayout
    layout_loop zero f pos acc = err out_of_rounds
    layout_loop (suc rounds) f pos acc =
        if ltb pos (length f)
        then (elim (read_segment_block crc decompress f pos true) [
          | ok (some block) ↦ block_entries block >>= λ es.
              layout_loop rounds f block.next_off (with_block block es acc)
          | ok none ↦ ok (torn_layout f pos acc)
          | err e ↦ ok (torn_layout f pos acc)
        ])
        else ok acc

    abbrev pub empty_layout : SegmentLayout
    empty_layout = record {
      records = [];
      idx_entries = [];
      has_row_blocks = false;
      torn_tail = none;
    }

    unfoldable pub read_segment_layout : Bytes → Try SegmentLayout
    read_segment_layout f = layout_loop (suc (length f)) f 0 empty_layout

    abbrev pub untorn : SegmentLayout → Option SegmentTornTail → Try (List Bytes)
    untorn layout none = ok layout.records
    untorn layout (some tail) = err torn_tail

    unfoldable pub read_segment_records_strict : Bytes → Try (List Bytes)
    read_segment_records_strict f = do
      layout ← read_segment_layout f
      untorn layout layout.torn_tail
