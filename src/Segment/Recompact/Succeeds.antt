-- ===== src/Segment/Recompact/Succeeds.antt =====
-- Recompaction succeeds where its encoder and its compressor do, and the new index finds each record.
use lol_crawler.Prelude.{
  ℕ, zero, suc, ◌*◌, ◌^◌, ◌<◌, ◌≤◌, ◌≡◌, refl, sym, ap, subst, ◌∙◌, true, false, Option, none, some,
  List, [], ◌∷◌, ◌++◌, map, length, drop, leb, ltb, ◌==◌, ==_self, if◌then◌else◌, append-nil,
  append_assoc, length-append, length-drop, All, arith,
}
use lol_crawler.Prelude.Result.{Result, ok}
use lol_crawler.Columnar.Varint.{Bytes}
use lol_crawler.Columnar.Error as Columnar
use lol_crawler.Columnar.Block.{encode_block}
use lol_crawler.Columnar.RoundTrip.Whole.{decode_block-of-encode_block}
use lol_crawler.Record.{MatchRecord}
use lol_crawler.Segment.Index.{IdxEntry, write_entries}
use lol_crawler.Segment.Container.{
  max_segment_block_bytes, SegmentBlockKind, ordinals, decode_kind, write_container_block,
}
use lol_crawler.Segment.Container.Blocks.{Block, end_of, block_at, block_bytes, IsIntact}
use lol_crawler.Segment.Container.Read.{
  blocks_bytes, all_records, length-block, length-blocks, step_block, read-intact,
}
use lol_crawler.Segment.Container.Locate.{
  at_block, locators, AllLocated, Reads, IsPlaced, read_record_at-locators,
}
use lol_crawler.Segment.Writer.Stored.{place, map-append}
use lol_crawler.Segment.Writer.Flushed.{IsPacker}
use lol_crawler.Segment.Layout.{
  SegmentLayout, entries_of, with_block, layout_loop, empty_layout, untorn, read_segment_layout,
  read_segment_records_strict,
}
use lol_crawler.Segment.Recompact.{
  Disk, RecompactOutcome, write_columnar_block, write_chunks, chunks,
  columnar_recompact_records_per_block, heal, rewrite_segment, put_in_place, put_verified,
  check_and_put, recompact_checked, recompact_layout, recompact_segment_inner, clean,
  recompact_segment, without_tmp, check_tail, outcome,
}
use lol_crawler.Segment.Recompact.Chunks.{
  IsDecodable, length-ordinals, entries_of-decodable, concat, concat-chunks, length-chunks,
  verify_rewrite_self,
}

module _ (crc : Bytes → ℕ) (compress : Bytes → Option Bytes) (decompress : Bytes → ℕ → Option Bytes)
    (prost_decode : Bytes → Result Columnar.Error MatchRecord)
    (decode : Bytes → Option MatchRecord) where
  -- A block's records and places are as many, and prost decodes the records.
  abbrev pub IsListed : Block → Type 0
  IsListed b = (length b.records ≡ length b.rec_offsets) × All (IsDecodable decode) b.records

  layout_loop-blocks :
      (bs : List Block) (rounds : ℕ) (f : Bytes) (pos : ℕ) (acc : SegmentLayout)
      → All (IsIntact crc decompress) bs
      → All IsListed bs
      → length f < 2 ^ 63
      → length bs < rounds
      → pos ≤ length f
      → drop pos f ≡ blocks_bytes crc decompress bs
      → (layout : SegmentLayout) × (layout_loop decode crc decompress rounds f pos acc ≡ ok layout)
        × (layout.records ≡ acc.records ++ all_records crc decompress bs)
        × (layout.torn_tail ≡ acc.torn_tail)
  unfolding layout_loop
  layout_loop-blocks bs zero f pos acc h l size few within e = absurd (omega arith)
  layout_loop-blocks [] (suc rounds) f pos acc h l size few within e =
      let done : ltb pos (length f) ≡ false = ground (arith, length-drop pos f, ap length e) in
      (acc, rw done refl, sym (append-nil acc.records), refl)
  layout_loop-blocks (b ∷ bs) (suc rounds) f pos acc h l size few within e =
      let (es, listed, _) = entries_of-decodable decode pos b.records b.rec_offsets l.0.0 l.0.1 in
      let (behind, within') = step_block crc decompress b f pos _ e within in
      let more : ltb pos (length f) ≡ true =
        ground (arith, within', length-block crc decompress b) in
      let (layout, run, records, torn) =
        layout_loop-blocks bs rounds f (end_of pos b)
          (with_block decode crc decompress (block_at pos b) es acc) h.1 l.1 size (omega arith)
          within' behind in
      let count : (length b.records == length b.rec_offsets) ≡ true =
        ap (λ n. n == length b.rec_offsets) l.0.0 ∙ ==_self (length b.rec_offsets) in
      (
        layout,
        rw more (
            rw (read-intact crc decompress b f pos true _ h.0 size within e)
              (rw count (rw listed run))),
        records ∙ append_assoc acc.records b.records (all_records crc decompress bs),
        torn,
      )

  strict-blocks :
      (bs : List Block)
      → All (IsIntact crc decompress) bs
      → All IsListed bs
      → length (blocks_bytes crc decompress bs) < 2 ^ 63
      → read_segment_records_strict decode crc decompress (blocks_bytes crc decompress bs)
        ≡ ok (all_records crc decompress bs)
  unfolding read_segment_records_strict read_segment_layout
  strict-blocks bs h l size =
      let f : Bytes = blocks_bytes crc decompress bs in
      let (layout, run, records, torn) =
        layout_loop-blocks bs (suc (length f)) f 0 (empty_layout decode crc decompress) h l size
          (omega (arith, length-blocks crc decompress bs)) (omega arith) refl in
      rw run (ap (untorn decode crc decompress layout) torn ∙ ap ok records)

  -- What the encoder and the compressor have to do with a chunk.
  pub record IsChunk (chunk : List Bytes) : Type 0 where
    pub payload : Bytes
    pub compressed : Bytes
    pub encodes : encode_block prost_decode chunk ≡ ok payload
    pub compresses : compress payload ≡ some compressed
    pub payload_fits : length payload ≤ max_segment_block_bytes
    pub compressed_fits : length compressed ≤ max_segment_block_bytes
    pub count_fits : length chunk ≤ 2 ^ 32
    pub decodable : All (IsDecodable decode) chunk

  abbrev pub column_block : (chunk : List Bytes) → IsChunk chunk → Block
  column_block chunk h = record {
    kind = SegmentBlockKind.columnar;
    block = h.payload;
    compressed = h.compressed;
    records = chunk;
    rec_offsets = ordinals 0 chunk;
  }

  column-IsIntact :
      (chunk : List Bytes) (h : IsChunk chunk)
      → IsPacker crc compress decompress
      → IsIntact crc decompress (column_block chunk h)
  unfolding decode_kind
  column-IsIntact chunk h packs =
      let small : leb (length chunk) (2 ^ 32) ≡ true = ground (arith, h.count_fits) in
      record {
        compressed_fits = h.compressed_fits;
        block_fits = h.payload_fits;
        crc_fits = packs.crc_u32 h.compressed;
        unpacks = packs.unpacks h.payload h.compressed h.compresses;
        content = λ strict.
            rw (decode_block-of-encode_block prost_decode chunk h.encodes) (rw small refl);
      }

  write_columnar_block-chunk :
      (out : Bytes) (chunk : List Bytes) (h : IsChunk chunk)
      → write_columnar_block crc compress decompress prost_decode decode out chunk
        ≡ ok (out ++ block_bytes crc decompress (column_block chunk h))
  unfolding write_columnar_block write_container_block
  write_columnar_block-chunk out chunk h =
      let c1 : ltb (length h.compressed) (2 ^ 32) ≡ true = ground (arith, h.compressed_fits) in
      let c2 : ltb (length h.payload) (2 ^ 32) ≡ true = ground (arith, h.payload_fits) in
      rw h.encodes (rw h.compresses (rw (c1, c2) refl))

  length-blocks_bound :
      (bs : List Block)
      → All (IsIntact crc decompress) bs
      → length (blocks_bytes crc decompress bs) ≤ length bs * 268435472
  length-blocks_bound [] h = omega arith
  length-blocks_bound (b ∷ bs) h = omega (
    arith,
    length-blocks_bound bs h.1,
    length-append (block_bytes crc decompress b) (blocks_bytes crc decompress bs),
    length-block crc decompress b,
    h.0.compressed_fits,
  )

  -- What a list of chunks is written to.
  record Written (cs : List (List Bytes)) (out : Bytes) (new_idx : List IdxEntry) : Type 0 where
    blocks : List Block
    entries : List IdxEntry
    count : length blocks ≡ length cs
    run :
        write_chunks crc compress decompress prost_decode decode cs out new_idx
        ≡ (out ++ blocks_bytes crc decompress blocks, ok (new_idx ++ entries))
    intact : All (IsIntact crc decompress) blocks
    is_placed : All (IsPlaced crc decompress) blocks
    listed : All IsListed blocks
    records : all_records crc decompress blocks ≡ concat cs
    places : map place entries ≡ locators (length out) blocks

  write_chunks-step :
      (c : List Bytes) (cs : List (List Bytes)) (out : Bytes) (new_idx : List IdxEntry)
      {out' : Bytes} {es : List IdxEntry}
      → write_columnar_block crc compress decompress prost_decode decode out c ≡ ok out'
      → entries_of decode (length out) c (ordinals 0 c) ≡ ok es
      → write_chunks crc compress decompress prost_decode decode (c ∷ cs) out new_idx
        ≡ write_chunks crc compress decompress prost_decode decode cs out' (new_idx ++ es)
  unfolding write_chunks
  write_chunks-step c cs out new_idx e1 e2 = rw (e1, write_chunks) (rw (e2, write_chunks) refl)

  write_chunks-Written :
      (cs : List (List Bytes)) (out : Bytes) (new_idx : List IdxEntry)
      → IsPacker crc compress decompress
      → All IsChunk cs
      → Written cs out new_idx
  unfolding write_chunks
  write_chunks-Written [] out new_idx packs h = record {
    blocks = [];
    entries = [];
    count = refl;
    run = λ i. (sym (append-nil out) i, ok (sym (append-nil new_idx) i));
    intact = tt;
    is_placed = tt;
    listed = tt;
    records = refl;
    places = refl;
  }
  write_chunks-Written (c ∷ cs) out new_idx packs h =
      let b : Block = column_block c h.0 in
      let bytes : Bytes = block_bytes crc decompress b in
      let same : length c ≡ length (ordinals 0 c) = sym (length-ordinals 0 c) in
      let (es, listed, places) =
        entries_of-decodable decode (length out) c (ordinals 0 c) same h.0.decodable in
      let rest = write_chunks-Written cs (out ++ bytes) (new_idx ++ es) packs h.1 in
      let behind : length (out ++ bytes) ≡ end_of (length out) b =
        omega (arith, length-append out bytes, length-block crc decompress b) in
      record {
        blocks = b ∷ rest.blocks;
        entries = es ++ rest.entries;
        count = ap suc rest.count;
        run =
            write_chunks-step c cs out new_idx (write_columnar_block-chunk out c h.0) listed
            ∙ (rest.run ∙ λ i. (
              append_assoc out bytes (blocks_bytes crc decompress rest.blocks) i,
              ok (append_assoc new_idx es rest.entries i),
            ));
        intact = (column-IsIntact c h.0 packs, rest.intact);
        is_placed = (refl, rest.is_placed);
        listed = ((same, h.0.decodable), rest.listed);
        records = ap (λ t. c ++ t) rest.records;
        places =
            map-append place es rest.entries
            ∙ ap (λ t. t ++ map place rest.entries) places
            ∙ ap (λ t. at_block (length out) (ordinals 0 c) ++ t)
                (rest.places ∙ ap (λ n. locators n rest.blocks) behind);
      }

  -- A segment that is read to fewer than 2^34 records, all of which prost decodes, and that has a
  -- row block, is recompacted where the chunks of its records are encoded, and compressed within
  -- the readers' limits, zstd unpacks what it packs, checksums are u32s, and the index is well-
  -- formed and names nothing at or behind a torn tail. Every record is then found by the place in
  -- its entry of the new index.
  pub recompact_segment-succeeds :
      (d : Disk) (layout : SegmentLayout)
      → IsPacker crc compress decompress
      → read_segment_layout decode crc decompress d.seg ≡ ok layout
      → layout.has_row_blocks ≡ true
      → check_tail d.idx layout.torn_tail ≡ ok tt
      → All IsChunk
          (chunks (length layout.records) columnar_recompact_records_per_block layout.records)
      → length layout.records < 2 ^ 34
      → (seg : Bytes) × (es : List IdxEntry) × (out : RecompactOutcome) × (recompact_segment crc
            compress decompress prost_decode decode d
          ≡ (
            ok out,
            record { seg = seg; idx = some (write_entries [] es); seg_tmp = none; idx_tmp = none },
          ))
        × AllLocated (Reads crc decompress seg) (map place es) layout.records
  unfolding recompact_segment recompact_segment_inner rewrite_segment
  recompact_segment-succeeds d layout packs found rows checked cs size =
      let w =
        write_chunks-Written
          (chunks (length layout.records) columnar_recompact_records_per_block layout.records) [] []
          packs cs in
      let seg : Bytes = blocks_bytes crc decompress w.blocks in
      let small : length seg < 2 ^ 63 = omega (
        arith,
        length-blocks_bound w.blocks w.intact,
        w.count,
        length-chunks (length layout.records) columnar_recompact_records_per_block layout.records,
        size,
      ) in
      let records : all_records crc decompress w.blocks ≡ layout.records =
        w.records
        ∙ concat-chunks (length layout.records) columnar_recompact_records_per_block layout.records
            (omega arith) (omega arith) in
      let reread : read_segment_records_strict decode crc decompress seg ≡ ok layout.records =
        strict-blocks w.blocks w.intact w.listed small ∙ ap ok records in
      let all_there : AllLocated (Reads crc decompress seg) (map place w.entries) layout.records =
        subst (λ t. AllLocated (Reads crc decompress seg) (map place w.entries) t) records
          (subst
            (λ t. AllLocated (Reads crc decompress seg) t (all_records crc decompress w.blocks))
            (sym w.places)
            (subst
              (λ t.
                AllLocated (Reads crc decompress t) (locators 0 w.blocks)
                  (all_records crc decompress w.blocks))
              (append-nil seg)
              (read_record_at-locators crc decompress w.blocks [] w.intact w.is_placed
                (omega (arith, small, ap length (append-nil seg)))))) in
      (
        seg,
        w.entries,
        outcome crc compress decompress prost_decode decode (without_tmp d) layout false true seg
            (some (write_entries [] w.entries)),
        ap
              (λ t.
                clean crc compress decompress prost_decode decode
                  (recompact_layout crc compress decompress prost_decode decode (without_tmp d) t))
              found
            ∙ ap
                (λ t. clean crc compress decompress prost_decode decode (
                  recompact_checked crc compress decompress prost_decode decode (without_tmp d)
                    layout t))
                checked
            ∙ ap
                (λ b. clean crc compress decompress prost_decode decode (
                  if b
                  then rewrite_segment crc compress decompress prost_decode decode (without_tmp d)
                      layout
                  else heal crc compress decompress prost_decode decode (without_tmp d) layout))
                rows
            ∙ ap
                (λ t. clean crc compress decompress prost_decode decode (
                  check_and_put crc compress decompress prost_decode decode (without_tmp d) layout
                    t))
                w.run
            ∙ ap
                (λ t. clean crc compress decompress prost_decode decode (
                  put_in_place crc compress decompress prost_decode decode (without_tmp d) layout
                    seg w.entries t))
                reread
            ∙ ap
                (λ t. clean crc compress decompress prost_decode decode (
                  put_verified crc compress decompress prost_decode decode (without_tmp d) layout
                    seg w.entries t))
                (verify_rewrite_self layout.records),
        all_there,
      )
