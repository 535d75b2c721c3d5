-- ===== src/Segment/Writer/Flushed.antt =====
-- A flush puts everything that waited into the files, where the readers find it.
use lol_crawler.Prelude.{
  ℕ, ◌+◌, ◌%◌, ◌^◌, ◌<◌, ◌≤◌, ◌≡◌, refl, sym, ap, subst, ◌∙◌, Option, some, List, [], ◌∷◌, ◌++◌,
  length, map, append-nil, All-append, arith,
}
use lol_crawler.Prelude.Result.{ok}
use lol_crawler.Prelude.Maps.{String}
use lol_crawler.Columnar.Varint.{Bytes}
use lol_crawler.Record.{MatchRecord}
use lol_crawler.Segment.Rows.RoundTrip.{row_offsets, decode_row_block-rows}
use lol_crawler.Segment.Index.{IdxEntry, write_entries}
use lol_crawler.Segment.Index.RoundTrip.{entries_bytes, write_entries-append}
use lol_crawler.Segment.Container.{
  seg_magic, max_segment_block_bytes, SegmentBlockKind, container, validate_segment,
  read_segment_records, decode_kind,
}
use lol_crawler.Segment.Container.Blocks.{Block, block_bytes, IsIntact}
use lol_crawler.Segment.Container.Torn.{IsTail, nothing}
use lol_crawler.Segment.Container.Read.{
  blocks_bytes, all_records, read_segment_records-blocks, validate_segment-blocks,
}
use lol_crawler.Segment.Container.Locate.{
  at_block, locators, AllLocated, Reads, IsPlaced, read_record_at-locators,
}
use lol_crawler.Segment.Writer.{
  SegmentWriter, open_files, open_writer, pending_entry, flush_pending, flush,
}
use lol_crawler.Segment.Writer.Stored.{place, game_ids, games, map-append, games-append, IsWriter}
use lol_crawler.Segment.Writer.Joins.{
  blocks_bytes-append, all_records-append, entries_bytes-append, game_ids-append, places-pending,
  game_ids-pending, nothing_pending, some_pending, locators-append, cut_tail,
}

-- What crc32fast and zstd promise: a checksum is a u32, and what was compressed is unpacked.
pub record IsPacker (crc : Bytes → ℕ) (compress : Bytes → Option Bytes)
    (decompress : Bytes → ℕ → Option Bytes) : Type 0 where
  pub crc_u32 : (c : Bytes) → crc c < 2 ^ 32
  pub unpacks : (b c : Bytes) → compress b ≡ some c → decompress c (length b) ≡ some b

module _ (crc : Bytes → ℕ) (compress : Bytes → Option Bytes) (decompress : Bytes → ℕ → Option Bytes)
    (encode_to_vec : MatchRecord → Bytes) (packs : IsPacker crc compress decompress) where
  abbrev pub new_block : SegmentWriter → Bytes → List MatchRecord → Block
  new_block w c waiting = record {
    kind = SegmentBlockKind.row;
    block = w.buf;
    compressed = c;
    records = map encode_to_vec waiting;
    rec_offsets = row_offsets 0 (map encode_to_vec waiting);
  }

  abbrev pub flushed_writer : SegmentWriter → Bytes → SegmentWriter
  flushed_writer w c = record {
    date = w.date;
    seg = w.seg ++ container seg_magic (crc c) (length c % 2 ^ 32) (length w.buf % 2 ^ 32) c;
    idx = w.idx ++ write_entries [] (map (pending_entry (length w.seg)) w.pending);
    buf = [];
    pending = [];
  }

  module _ (w : SegmentWriter) (stored waiting : List MatchRecord) (c : Bytes)
      (h : IsWriter crc compress decompress encode_to_vec w stored waiting)
      (zipped : compress w.buf ≡ some c) (buf_fits : length w.buf ≤ max_segment_block_bytes)
      (c_fits : length c ≤ max_segment_block_bytes) where
    pub new-IsIntact : IsIntact crc decompress (new_block w c waiting)
    unfolding decode_kind
    new-IsIntact = record {
      compressed_fits = c_fits;
      block_fits = buf_fits;
      crc_fits = packs.crc_u32 c;
      unpacks = packs.unpacks w.buf c zipped;
      content = λ strict. rw h.buf (
          rw
            (decode_row_block-rows (map encode_to_vec waiting) strict h.row_sizes
              (omega (arith, buf_fits, ap length h.buf)))
            refl);
    }

    new-IsPlaced : IsPlaced crc decompress (new_block w c waiting)
    new-IsPlaced = refl

    pub flushed-IsWriter :
        IsWriter crc compress decompress encode_to_vec (flushed_writer w c) (stored ++ waiting) []
    flushed-IsWriter =
        let n : Block = new_block w c waiting in
        let seg_size : length w.seg ≡ 0 + length (blocks_bytes crc decompress h.blocks) =
          omega (arith, ap length h.seg) in
        let pend : List IdxEntry = map (pending_entry (length w.seg)) w.pending in
        let m1 : length c % 2 ^ 32 ≡ length c = omega (arith, c_fits) in
        let m2 : length w.buf % 2 ^ 32 ≡ length w.buf = omega (arith, buf_fits) in
        record {
          blocks = h.blocks ++ (n ∷ []);
          entries = h.entries ++ pend;
          intact =
              All-append (IsIntact crc decompress) h.blocks (n ∷ []) h.intact (new-IsIntact, tt);
          is_placed =
              All-append (IsPlaced crc decompress) h.blocks (n ∷ []) h.is_placed (new-IsPlaced, tt);
          seg =
              ap (λ t. w.seg ++ container seg_magic (crc c) t (length w.buf % 2 ^ 32) c) m1
              ∙ ap (λ t. w.seg ++ container seg_magic (crc c) (length c) t c) m2
              ∙ ap (λ t. t ++ block_bytes crc decompress n) h.seg
              ∙ ap (λ t. blocks_bytes crc decompress h.blocks ++ t)
                  (sym (append-nil (block_bytes crc decompress n)))
              ∙ sym (blocks_bytes-append crc decompress h.blocks (n ∷ []));
          records =
              all_records-append crc decompress h.blocks (n ∷ [])
              ∙ ap (λ t. t ++ (map encode_to_vec waiting ++ [])) h.records
              ∙ ap (λ t. map encode_to_vec stored ++ t) (append-nil (map encode_to_vec waiting))
              ∙ sym (map-append encode_to_vec stored waiting);
          idx =
              ap (λ t. w.idx ++ t) (write_entries-append [] pend)
              ∙ ap (λ t. t ++ entries_bytes pend) h.idx
              ∙ sym (entries_bytes-append h.entries pend);
          places =
              map-append place h.entries pend
              ∙ ap (λ t. t ++ map place pend) h.places
              ∙ ap (λ t. locators 0 h.blocks ++ t)
                  (places-pending (length w.seg) w.pending
                    ∙ ap (at_block (length w.seg)) h.offsets
                    ∙ ap (λ k. at_block k (row_offsets 0 (map encode_to_vec waiting))) seg_size
                    ∙ sym (append-nil _))
              ∙ sym (locators-append 0 h.blocks (n ∷ []) crc decompress);
          ids =
              game_ids-append h.entries pend
              ∙ ap (λ t. t ++ game_ids pend) h.ids
              ∙ ap (λ t. games stored ++ t)
                  (game_ids-pending (length w.seg) w.pending ∙ h.pending_ids)
              ∙ sym (games-append stored waiting);
          buf = refl;
          row_sizes = tt;
          offsets = refl;
          pending_ids = refl;
        }

  -- Where zstd packs the buffer and unpacks what it packs, both sizes are under the readers'
  -- limit, and checksums are u32s, a flush succeeds, and what waited is stored behind what was.
  pub flush-IsWriter :
      (w : SegmentWriter) (stored waiting : List MatchRecord) (c : Bytes)
      → IsWriter crc compress decompress encode_to_vec w stored waiting
      → compress w.buf ≡ some c
      → length w.buf ≤ max_segment_block_bytes
      → length c ≤ max_segment_block_bytes
      → (w' : SegmentWriter) × (flush crc compress w ≡ ok w')
        × IsWriter crc compress decompress encode_to_vec w' (stored ++ waiting) []
  unfolding flush
  flush-IsWriter w stored [] c h zipped buf_fits c_fits = (
    w,
    ap (flush_pending crc compress w) (nothing_pending w.pending h.pending_ids),
    subst (λ t. IsWriter crc compress decompress encode_to_vec w t []) (sym (append-nil stored)) h,
  )
  flush-IsWriter w stored (rec ∷ recs) c h zipped buf_fits c_fits =
      let (p, ps, e) = some_pending w.pending rec.game_id (games recs) h.pending_ids in
      (
        flushed_writer w c,
        ap (flush_pending crc compress w) e ∙ rw zipped refl,
        flushed-IsWriter w stored (rec ∷ recs) c h zipped buf_fits c_fits,
      )

  -- What is stored in a segment shorter than 2^63 bytes is read back whole: all of it in order by
  -- `read_segment_records`, and each record by the place in its index entry; the index file holds
  -- these entries, and they carry the records' game ids.
  pub stored-read :
      (w : SegmentWriter) (stored waiting : List MatchRecord)
      → (h : IsWriter crc compress decompress encode_to_vec w stored waiting)
      → length w.seg < 2 ^ 63
      → (read_segment_records crc decompress w.seg ≡ ok (map encode_to_vec stored))
        × AllLocated (Reads crc decompress w.seg) (map place h.entries) (map encode_to_vec stored)
        × (w.idx ≡ entries_bytes h.entries)
        × (game_ids h.entries ≡ games stored)
  stored-read w stored waiting h size =
      let whole : w.seg ≡ blocks_bytes crc decompress h.blocks ++ [] = h.seg ∙ sym (append-nil _) in
      let size' : length (blocks_bytes crc decompress h.blocks ++ []) < 2 ^ 63 =
        omega (arith, size, ap length whole) in
      (
        ap (read_segment_records crc decompress) whole
            ∙ read_segment_records-blocks crc decompress h.blocks [] h.intact (nothing refl) size'
            ∙ ap ok h.records,
        subst (λ t. AllLocated (Reads crc decompress w.seg) (map place h.entries) t) h.records
            (subst
              (λ t. AllLocated (Reads crc decompress w.seg) t (all_records crc decompress h.blocks))
              (sym h.places)
              (subst
                (λ t.
                  AllLocated (Reads crc decompress t) (locators 0 h.blocks)
                    (all_records crc decompress h.blocks))
                (sym whole)
                (read_record_at-locators crc decompress h.blocks [] h.intact h.is_placed size'))),
        h.idx,
        h.ids,
      )

  -- Where a crash has left nothing or the front part of a block behind what was stored, in a file
  -- shorter than 2^63 bytes, opening it gives a writer with exactly the records that were stored
  -- before, and none waiting.
  pub open_writer-torn :
      (w : SegmentWriter) (stored waiting : List MatchRecord) (tail : Bytes) (today : String)
      → IsWriter crc compress decompress encode_to_vec w stored waiting
      → IsTail crc decompress tail
      → length (w.seg ++ tail) < 2 ^ 63
      → (w' : SegmentWriter) × (open_writer today (record { seg = w.seg ++ tail; idx = w.idx })
          ≡ ok w')
        × IsWriter crc compress decompress encode_to_vec w' stored []
  unfolding open_writer open_files
  open_writer-torn w stored waiting tail today h end size =
      let cut : SegmentWriter = record {
        date = today;
        seg = w.seg;
        idx = w.idx;
        buf = [];
        pending = [];
      } in
      let valid : validate_segment (w.seg ++ tail) ≡ ok (length w.seg) =
        ap (λ t. validate_segment (t ++ tail)) h.seg
        ∙ validate_segment-blocks crc decompress h.blocks tail h.intact end
            (subst (λ t. length (t ++ tail) < 2 ^ 63) h.seg size)
        ∙ ap (λ t. ok (length t)) (sym h.seg) in
      (
        cut,
        rw valid (
            ap (λ t. ok (record { date = today; seg = t; idx = w.idx; buf = []; pending = [] }))
              (cut_tail w.seg tail)),
        record {
          blocks = h.blocks;
          entries = h.entries;
          intact = h.intact;
          is_placed = h.is_placed;
          seg = h.seg;
          records = h.records;
          idx = h.idx;
          places = h.places;
          ids = h.ids;
          buf = refl;
          row_sizes = tt;
          offsets = refl;
          pending_ids = refl;
        },
      )
