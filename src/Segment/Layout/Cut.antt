-- ===== src/Segment/Layout/Cut.antt =====
-- A segment that is cut where its torn tail starts holds the same records, and no torn tail.
use lol_crawler.Prelude.{
  ℕ, zero, suc, ◌+◌, ◌-◌, ◌<◌, ◌≤◌, ◌≡◌, refl, ap, subst, ◌∙◌, ◌⊎◌, inl, inr, true, false,
  Bool-cases, Option, none, some, List, length, take, ltb, arith,
}
use lol_crawler.Prelude.Result.{ok, err, bind_ok}
use lol_crawler.Columnar.Varint.{Bytes}
use lol_crawler.Record.{MatchRecord}
use lol_crawler.Segment.Error
use lol_crawler.Segment.Error.{
  Try, truncated_header, length_overflow, unknown_magic, truncated_block, compressed_too_large,
  uncompressed_too_large, crc_mismatch, length_mismatch, out_of_rounds,
}
use lol_crawler.Segment.Index.{IdxEntry}
use lol_crawler.Segment.Container.{SegmentBlock, invalid_block, read_segment_block}
use lol_crawler.Segment.Layout.{
  SegmentTornTail, SegmentLayout, with_block, torn_layout, block_entries, layout_loop, empty_layout,
  read_segment_layout,
}
use lol_crawler.Segment.Container.Cut.{next_off-read, read_block-take, strict_read, length-take}

module _ (crc : Bytes → ℕ) (decompress : Bytes → ℕ → Option Bytes) where
  module _ (decode : Bytes → Option MatchRecord) where
    -- `layout` with its torn tail taken away.
    abbrev pub whole : SegmentLayout → SegmentLayout
    whole layout = record {
      records = layout.records;
      idx_entries = layout.idx_entries;
      has_row_blocks = layout.has_row_blocks;
      torn_tail = none;
    }

    -- `f` cut at the tail of `layout`, where a loop that found it started at `pos` with `acc`.
    pub record IsCut (f : Bytes) (pos : ℕ) (acc layout : SegmentLayout) (tail : SegmentTornTail)
        : Type 0 where
      pub behind : pos ≤ tail.valid_len
      pub within : tail.valid_len ≤ length f
      pub again :
          (rounds : ℕ)
          → tail.valid_len < pos + rounds
          → layout_loop decode crc decompress rounds (take tail.valid_len f) pos acc
            ≡ ok (whole layout)

    torn-IsCut :
        (f : Bytes) (pos : ℕ) (acc layout : SegmentLayout) (tail : SegmentTornTail)
        → acc.torn_tail ≡ none
        → pos < length f
        → torn_layout decode crc decompress f pos acc ≡ layout
        → layout.torn_tail ≡ some tail
        → IsCut f pos acc layout tail
    torn-IsCut f pos acc layout tail clear more e t =
        let here : SegmentTornTail = record { valid_len = pos; dropped_bytes = length f - pos } in
        let same : some here ≡ some tail = ap (λ (l : SegmentLayout). l.torn_tail) e ∙ t in
        let same' : here ≡ tail = cc same in
        let base : IsCut f pos acc (torn_layout decode crc decompress f pos acc) here = record {
          behind = omega arith;
          within = omega (arith, more);
          again = λ rounds few. stop rounds f pos acc clear more few;
        } in
        subst (λ l. IsCut f pos acc l tail) e
          (subst (λ x. IsCut f pos acc (torn_layout decode crc decompress f pos acc) x) same' base)
      where
        stop :
            (rounds : ℕ) (f : Bytes) (pos : ℕ) (acc : SegmentLayout)
            → acc.torn_tail ≡ none
            → pos < length f
            → pos < pos + rounds
            → layout_loop decode crc decompress rounds (take pos f) pos acc
              ≡ ok (whole (torn_layout decode crc decompress f pos acc))
        stop zero f pos acc clear more few = absurd (omega arith)
        stop (suc rounds) f pos acc clear more few =
            let done : ltb pos (length (take pos f)) ≡ false =
              ground (arith, length-take pos f (omega arith)) in
            unfold layout_loop in
            rw done (λ i. ok (record {
              records = acc.records;
              idx_entries = acc.idx_entries;
              has_row_blocks = acc.has_row_blocks;
              torn_tail = clear i;
            }))

    read_segment_block-take :
        (f : Bytes) (pos m : ℕ) (b : SegmentBlock)
        → read_segment_block crc decompress f pos true ≡ ok (some b)
        → b.next_off ≤ m
        → m ≤ length f
        → read_segment_block crc decompress (take m f) pos true ≡ ok (some b)
    unfolding read_segment_block
    read_segment_block-take f pos m b e h fits =
        let (at_end, _) =
          next_off-read crc decompress f pos true b (strict_read crc decompress f pos b e) in
        ap (invalid_block true)
          (read_block-take crc decompress f pos true m (omega (arith, at_end, h)) fits)
        ∙ e

    Read-cases :
        (r : Try (Option SegmentBlock))
        → ((b : SegmentBlock) × (r ≡ ok (some b)))
          ⊎ ((r ≡ ok none) ⊎ ((e : Error.Error) × (r ≡ err e)))
    Read-cases (ok (some b)) = inl (b, refl)
    Read-cases (ok none) = inr (inl refl)
    Read-cases (err e) = inr (inr (e, refl))

    layout_loop-IsCut :
        (rounds : ℕ) (f : Bytes) (pos : ℕ) (acc layout : SegmentLayout) (tail : SegmentTornTail)
        → acc.torn_tail ≡ none
        → layout_loop decode crc decompress rounds f pos acc ≡ ok layout
        → layout.torn_tail ≡ some tail
        → IsCut f pos acc layout tail
    unfolding layout_loop
    layout_loop-IsCut zero f pos acc layout tail clear e t = cc
    layout_loop-IsCut (suc rounds) f pos acc layout tail clear e t =
        elim (Bool-cases (ltb pos (length f))) [
          | inr done ↦
              let same : ok acc ≡ ok layout = rw done at e in
              let same' : acc ≡ layout = cc same in
              let no : acc.torn_tail ≡ some tail =
                ap (λ (l : SegmentLayout). l.torn_tail) same' ∙ t in
              cc (clear, no)
          | inl more ↦
              let e' = rw more at e in
              elim (Read-cases (read_segment_block crc decompress f pos true)) [
                | inr (inl r) ↦
                    let e'' : ok (torn_layout decode crc decompress f pos acc) ≡ ok layout =
                      rw r at e' in
                    torn-IsCut f pos acc layout tail clear (ground (arith, more)) (cc e'') t
                | inr (inr (x, r)) ↦
                    let e'' : ok (torn_layout decode crc decompress f pos acc) ≡ ok layout =
                      rw r at e' in
                    torn-IsCut f pos acc layout tail clear (ground (arith, more)) (cc e'') t
                | inl (b, r) ↦
                    let e'' = rw r at e' in
                    let (es, e1, k1) =
                      bind_ok (block_entries decode crc decompress b)
                        (λ es.
                          layout_loop decode crc decompress rounds f b.next_off
                            (with_block decode crc decompress b es acc))
                        e'' in
                    let rest =
                      layout_loop-IsCut rounds f b.next_off
                        (with_block decode crc decompress b es acc) layout tail clear k1 t in
                    let (at_end, _) =
                      next_off-read crc decompress f pos true b
                        (strict_read crc decompress f pos b r) in
                    record {
                      behind = omega (arith, at_end, rest.behind);
                      within = rest.within;
                      again = λ rounds' few.
                          go rounds' b es r e1 rest few (omega (arith, at_end, rest.behind))
                            (omega (arith, at_end));
                    }
              ]
        ]
      where
        go :
            (rounds' : ℕ) (b : SegmentBlock) (es : List IdxEntry)
            → read_segment_block crc decompress f pos true ≡ ok (some b)
            → block_entries decode crc decompress b ≡ ok es
            → IsCut f b.next_off (with_block decode crc decompress b es acc) layout tail
            → tail.valid_len < pos + rounds'
            → pos < tail.valid_len
            → pos < b.next_off
            → layout_loop decode crc decompress rounds' (take tail.valid_len f) pos acc
              ≡ ok (whole layout)
        go zero b es r e1 rest few below on = absurd (omega arith)
        go (suc rounds') b es r e1 rest few below on =
            let more : ltb pos (length (take tail.valid_len f)) ≡ true =
              ground (arith, length-take tail.valid_len f rest.within, below) in
            rw more (
              rw (read_segment_block-take f pos tail.valid_len b r rest.behind rest.within)
                (rw e1 (rest.again rounds' (omega (arith, few, on)))))

    -- Where a segment ends in a torn tail, the bytes before the tail are read to the same records
    -- and the same entries, and no torn tail.
    pub read_segment_layout-cut :
        (f : Bytes) (layout : SegmentLayout) (tail : SegmentTornTail)
        → read_segment_layout decode crc decompress f ≡ ok layout
        → layout.torn_tail ≡ some tail
        → read_segment_layout decode crc decompress (take tail.valid_len f) ≡ ok (whole layout)
    unfolding read_segment_layout
    read_segment_layout-cut f layout tail e t =
        let c =
          layout_loop-IsCut (suc (length f)) f 0 (empty_layout decode crc decompress) layout tail
            refl e t in
        c.again (suc (length (take tail.valid_len f)))
          (omega (arith, length-take tail.valid_len f c.within))
