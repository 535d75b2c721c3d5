-- ===== src/Segment/Recompact.antt =====
-- `recompact_segment` of crates/server/src/storage.rs: a closed segment is rewritten into columnar
-- blocks beside the original, read back, compared, and only then put in its place. The two files and
-- their `.tmp` files are fields of `Disk`; zstd, crc32fast and prost are parameters, and the calls
-- of the file system succeed. `fsync` shows only in the order of the steps.
pub mod Chunks
pub mod Keeps
pub mod Succeeds
use lol_crawler.Prelude.{
  ℕ, zero, suc, ◌+◌, ◌%◌, ◌^◌, Bool, true, false, not, Option, none, some, List, [], ◌∷◌, ◌++◌,
  length, take, drop, leb, ltb, ◌==◌, if◌then◌else◌,
}
use lol_crawler.Prelude.Result.{Result, ok, err, ensure, ◌>>=◌, ◌>>◌}
use lol_crawler.Columnar.Varint.{Bytes}
use lol_crawler.Columnar.Error as Columnar
use lol_crawler.Columnar.Payload.{bytes_eq}
use lol_crawler.Columnar.Block.{encode_block}
use lol_crawler.Record.{MatchRecord}
use lol_crawler.Segment.Error
use lol_crawler.Segment.Error.{
  Try, compress_failed, u32_range, malformed_idx, indexed_tail, verify_count, verify_bytes,
}
use lol_crawler.Segment.Index.{IdxEntry, write_entries, parse_idx_entries, entries_eq}
use lol_crawler.Segment.Container.{col_magic, ordinals, write_container_block}
use lol_crawler.Segment.Layout.{
  SegmentTornTail, SegmentLayout, entries_of, read_segment_layout, read_segment_records_strict,
}

pub record Disk : Type 0 where
  pub seg : Bytes
  pub idx : Option Bytes
  pub seg_tmp : Option Bytes
  pub idx_tmp : Option Bytes

pub record RecompactOutcome : Type 0 where
  pub already_compacted : Bool
  pub rebuilt_idx : Bool
  pub dropped_tail_bytes : ℕ
  pub before_seg_bytes : ℕ
  pub after_seg_bytes : ℕ
  pub before_idx_bytes : ℕ
  pub after_idx_bytes : ℕ
  pub record_count : ℕ

abbrev pub columnar_recompact_records_per_block : ℕ
columnar_recompact_records_per_block = 6000

abbrev pub file_len_or_zero : Option Bytes → ℕ
file_len_or_zero none = 0
file_len_or_zero (some bytes) = length bytes

abbrev pub read_idx_entries : Option Bytes → Option (List IdxEntry)
read_idx_entries none = none
read_idx_entries (some bytes) = parse_idx_entries bytes

abbrev pub entries_match : Option (List IdxEntry) → List IdxEntry → Bool
entries_match none expected = false
entries_match (some entries) expected = entries_eq entries expected

abbrev pub idx_matches : Option Bytes → List IdxEntry → Bool
idx_matches idx expected = entries_match (read_idx_entries idx) expected

-- The index, and whether it was written anew.
abbrev pub ensure_idx_consistent_or_rebuild : Option Bytes → List IdxEntry → Bool × Option Bytes
ensure_idx_consistent_or_rebuild idx expected =
    if idx_matches idx expected then (false, idx) else (true, some (write_entries [] expected))

abbrev pub some_behind : ℕ → List IdxEntry → Bool
some_behind valid_len [] = false
some_behind valid_len (e ∷ es) =
    if leb valid_len e.block_off then true else some_behind valid_len es

abbrev pub unindexed : ℕ → Option (List IdxEntry) → Try (Unit {0})
unindexed valid_len none = err malformed_idx
unindexed valid_len (some entries) = ensure (not (some_behind valid_len entries)) indexed_tail

abbrev pub ensure_torn_tail_unindexed : Option Bytes → SegmentTornTail → Try (Unit {0})
ensure_torn_tail_unindexed none tail = ok tt
ensure_torn_tail_unindexed (some bytes) tail = unindexed tail.valid_len (parse_idx_entries bytes)

abbrev pub check_tail : Option Bytes → Option SegmentTornTail → Try (Unit {0})
check_tail idx none = ok tt
check_tail idx (some tail) = ensure_torn_tail_unindexed idx tail

abbrev pub truncate_segment_tail : Bytes → Option SegmentTornTail → Bytes
truncate_segment_tail seg none = seg
truncate_segment_tail seg (some tail) = take tail.valid_len seg

abbrev pub dropped : Option SegmentTornTail → ℕ
dropped none = 0
dropped (some tail) = tail.dropped_bytes

-- `chunks(n)`, in `rounds` chunks at most.
unfoldable pub chunks : ℕ → ℕ → List Bytes → List (List Bytes)
chunks zero n xs = []
chunks (suc rounds) n [] = []
chunks (suc rounds) n (x ∷ xs) = take n (x ∷ xs) ∷ chunks rounds n (drop n (x ∷ xs))

abbrev pub all_same : List Bytes → List Bytes → Bool
all_same (w ∷ want) (g ∷ got) = if bytes_eq w g then all_same want got else false
all_same _ _ = true

unfoldable pub verify_rewrite : List Bytes → List Bytes → Try (Unit {0})
verify_rewrite want got = do
  ensure (length want == length got) verify_count
  ensure (all_same want got) verify_bytes

abbrev pub packed : Option Bytes → Try Bytes
packed none = err compress_failed
packed (some compressed) = ok compressed

abbrev pub from_columnar : {A : Type 0} → Result Columnar.Error A → Try A
from_columnar (ok a) = ok a
from_columnar (err e) = err (Error.columnar e)

-- Both `.tmp` files away.
abbrev pub without_tmp : Disk → Disk
without_tmp d = record { seg = d.seg; idx = d.idx; seg_tmp = none; idx_tmp = none }

module _ (crc : Bytes → ℕ) (compress : Bytes → Option Bytes) (decompress : Bytes → ℕ → Option Bytes)
    (prost_decode : Bytes → Result Columnar.Error MatchRecord)
    (decode : Bytes → Option MatchRecord) where
  unfoldable pub write_columnar_block : Bytes → List Bytes → Try Bytes
  write_columnar_block out records = do
    payload ← from_columnar (encode_block prost_decode records)
    compressed ← packed (compress payload)
    write_container_block crc out col_magic payload compressed

  -- What stands in the file when the loop ends, and the entries or the error.
  unfoldable pub write_chunks :
      List (List Bytes) → Bytes → List IdxEntry → Bytes × Try (List IdxEntry)
  write_chunks [] out new_idx = (out, ok new_idx)
  write_chunks (chunk ∷ rest) out new_idx = elim (write_columnar_block out chunk) [
    | err e ↦ (out, err e)
    | ok out' ↦ (elim (entries_of decode (length out) chunk (ordinals 0 chunk)) [
      | err e ↦ (out', err e)
      | ok es ↦ write_chunks rest out' (new_idx ++ es)
    ])
  ]

  abbrev pub outcome : Disk → SegmentLayout → Bool → Bool → Bytes → Option Bytes → RecompactOutcome
  outcome d layout already_compacted rebuilt_idx seg idx = record {
    already_compacted = already_compacted;
    rebuilt_idx = rebuilt_idx;
    dropped_tail_bytes = dropped layout.torn_tail;
    before_seg_bytes = length d.seg;
    after_seg_bytes = length seg;
    before_idx_bytes = file_len_or_zero d.idx;
    after_idx_bytes = file_len_or_zero idx;
    record_count = length layout.records;
  }

  -- The segment is columnar already: its tail is cut, and its index made to fit.
  unfoldable pub heal : Disk → SegmentLayout → Try RecompactOutcome × Disk
  heal d layout =
      let seg = truncate_segment_tail d.seg layout.torn_tail in
      let (rebuilt_idx, idx) = ensure_idx_consistent_or_rebuild d.idx layout.idx_entries in
      (
        ok (outcome d layout true rebuilt_idx seg idx),
        record { seg = seg; idx = idx; seg_tmp = none; idx_tmp = none },
      )

  -- The comparison that fails takes the `.tmp` files away by itself.
  abbrev pub put_verified :
      Disk → SegmentLayout → Bytes → List IdxEntry → Try (Unit {0}) → Try RecompactOutcome × Disk
  put_verified d layout seg_tmp new_idx (err e) = (err e, without_tmp d)
  put_verified d layout seg_tmp new_idx (ok _) = (
    ok (outcome d layout false true seg_tmp (some (write_entries [] new_idx))),
    record { seg = seg_tmp; idx = some (write_entries [] new_idx); seg_tmp = none; idx_tmp = none },
  )

  abbrev pub put_in_place :
      Disk → SegmentLayout → Bytes → List IdxEntry → Try (List Bytes) → Try RecompactOutcome × Disk
  put_in_place d layout seg_tmp new_idx (err e) = (
    err e,
    record {
      seg = d.seg;
      idx = d.idx;
      seg_tmp = some seg_tmp;
      idx_tmp = some (write_entries [] new_idx);
    },
  )
  put_in_place d layout seg_tmp new_idx (ok rewritten) =
      put_verified d layout seg_tmp new_idx (verify_rewrite layout.records rewritten)

  abbrev pub check_and_put :
      Disk → SegmentLayout → Bytes × Try (List IdxEntry) → Try RecompactOutcome × Disk
  check_and_put d layout (seg_tmp, err e) =
      (err e, record { seg = d.seg; idx = d.idx; seg_tmp = some seg_tmp; idx_tmp = none })
  check_and_put d layout (seg_tmp, ok new_idx) =
      put_in_place d layout seg_tmp new_idx
        (read_segment_records_strict decode crc decompress seg_tmp)

  unfoldable pub rewrite_segment : Disk → SegmentLayout → Try RecompactOutcome × Disk
  rewrite_segment d layout = check_and_put d layout (
      write_chunks
        (chunks (length layout.records) columnar_recompact_records_per_block layout.records) [] [])

  abbrev pub recompact_checked : Disk → SegmentLayout → Try (Unit {0}) → Try RecompactOutcome × Disk
  recompact_checked d layout (err e) = (err e, d)
  recompact_checked d layout (ok _) =
      if layout.has_row_blocks then rewrite_segment d layout else heal d layout

  abbrev pub recompact_layout : Disk → Try SegmentLayout → Try RecompactOutcome × Disk
  recompact_layout d (err e) = (err e, d)
  recompact_layout d (ok layout) = recompact_checked d layout (check_tail d.idx layout.torn_tail)

  unfoldable pub recompact_segment_inner : Disk → Try RecompactOutcome × Disk
  recompact_segment_inner d =
      recompact_layout (without_tmp d) (read_segment_layout decode crc decompress d.seg)

  abbrev pub clean : Try RecompactOutcome × Disk → Try RecompactOutcome × Disk
  clean (ok out, d) = (ok out, d)
  clean (err e, d) = (err e, without_tmp d)

  unfoldable pub recompact_segment : Disk → Try RecompactOutcome × Disk
  recompact_segment d = clean (recompact_segment_inner d)
