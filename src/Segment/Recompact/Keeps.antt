-- ===== src/Segment/Recompact/Keeps.antt =====
-- Recompaction loses no record: it ends with the same records in the segment, or with the old files.
use lol_crawler.Prelude.{
  ℕ, ◌≡◌, refl, sym, subst, inl, inr, true, false, Bool-cases, Option, none, some, List, [], ◌∷◌,
  length, ◌==◌, ==_iff, if◌then◌else◌, arith,
}
use lol_crawler.Prelude.Result.{Result, ok, err, ensure, bind_ok}
use lol_crawler.Columnar.Varint.{Bytes}
use lol_crawler.Columnar.Error as Columnar
use lol_crawler.Columnar.Payload.{bytes_eq}
use lol_crawler.Record.{MatchRecord}
use lol_crawler.Segment.Error.{Try, verify_count, verify_bytes}
use lol_crawler.Segment.Index.{IdxEntry}
use lol_crawler.Segment.Layout.{
  SegmentTornTail, SegmentLayout, untorn, read_segment_layout, read_segment_records_strict,
}
use lol_crawler.Segment.Container.Cut.{ensure-true}
use lol_crawler.Segment.Layout.Cut.{whole, read_segment_layout-cut}
use lol_crawler.Segment.Recompact.{
  Disk, RecompactOutcome, check_tail, truncate_segment_tail, all_same, verify_rewrite, heal,
  put_verified, put_in_place, check_and_put, rewrite_segment, recompact_checked, recompact_layout,
  recompact_segment_inner, clean, recompact_segment, without_tmp,
}

bytes_eq_sound : (as' bs : Bytes) → bytes_eq as' bs ≡ true → as' ≡ bs
bytes_eq_sound [] [] h = refl
bytes_eq_sound (a ∷ as') (b ∷ bs) h =
    let e : a ≡ b = ground arith in
    let es : as' ≡ bs = bytes_eq_sound as' bs (ground arith) in cc (e, es)
bytes_eq_sound [] (b ∷ bs) h = cc
bytes_eq_sound (a ∷ as') [] h = cc

all_same_sound :
    (want got : List Bytes) → length want ≡ length got → all_same want got ≡ true → want ≡ got
all_same_sound [] [] n h = refl
all_same_sound (w ∷ ws) (g ∷ gs) n h = elim (Bool-cases (bytes_eq w g)) [
  | inl t ↦
      let rest : all_same ws gs ≡ true = rw t at h in
      let same = bytes_eq_sound w g t in
      let same' = all_same_sound ws gs (omega arith) rest in cc (same, same')
  | inr f ↦ let no : false ≡ true = rw f at h in cc
]
all_same_sound [] (g ∷ gs) n h = absurd (omega arith)
all_same_sound (w ∷ ws) [] n h = absurd (omega arith)

verify_rewrite_sound : (want got : List Bytes) → verify_rewrite want got ≡ ok tt → want ≡ got
unfolding verify_rewrite
verify_rewrite_sound want got e =
    let (_, e1, k1) = bind_ok (ensure (length want == length got) verify_count) _ e in
    let count =
      (==_iff (length want) (length got)).0
        (ensure-true (length want == length got) verify_count e1) in
    all_same_sound want got count (ensure-true (all_same want got) verify_bytes k1)

module _ (crc : Bytes → ℕ) (compress : Bytes → Option Bytes) (decompress : Bytes → ℕ → Option Bytes)
    (prost_decode : Bytes → Result Columnar.Error MatchRecord)
    (decode : Bytes → Option MatchRecord) where
  -- The segment is read whole, to `records`.
  abbrev pub Holds : Bytes → List Bytes → Type 0
  Holds seg records =
      (layout : SegmentLayout) × (read_segment_layout decode crc decompress seg ≡ ok layout)
      × (layout.records ≡ records)
      × (layout.torn_tail ≡ none)

  -- What is asked of a disk `d` that recompaction leaves as it does.
  abbrev pub Kept : Disk → Try RecompactOutcome × Disk → Type 0
  Kept d (ok out, d') =
      (layout : SegmentLayout) × (read_segment_layout decode crc decompress d.seg ≡ ok layout)
      × Holds d'.seg layout.records
      × (out.record_count ≡ length layout.records)
      × (d'.seg_tmp ≡ none)
      × (d'.idx_tmp ≡ none)
  Kept d (err e, d') = (d'.seg ≡ d.seg) × (d'.idx ≡ d.idx)

  strict-Holds :
      (seg : Bytes) (records : List Bytes)
      → read_segment_records_strict decode crc decompress seg ≡ ok records
      → Holds seg records
  unfolding read_segment_records_strict
  strict-Holds seg records e =
      let (layout, e1, k1) =
        bind_ok (read_segment_layout decode crc decompress seg)
          (λ l. untorn decode crc decompress l l.torn_tail) e in
      let (same, clear) = of layout layout.torn_tail k1 in (layout, e1, same, clear)
    where
      of :
          (layout : SegmentLayout) (t : Option SegmentTornTail)
          → untorn decode crc decompress layout t ≡ ok records
          → (layout.records ≡ records) × (t ≡ none)
      of layout none h = (cc, refl)
      of layout (some t) h = cc

  module _ (d : Disk) (layout : SegmentLayout)
      (found : read_segment_layout decode crc decompress d.seg ≡ ok layout) where
    heal-Kept : Kept d (heal crc compress decompress prost_decode decode d layout)
    unfolding heal
    heal-Kept = (layout, found, cut_by (layout.torn_tail) refl, refl, refl, refl)
      where
        cut_by :
            (t : Option SegmentTornTail)
            → layout.torn_tail ≡ t
            → Holds (truncate_segment_tail d.seg layout.torn_tail) layout.records
        cut_by none e = rw e (layout, found, refl, e)
        cut_by (some tail) e = rw e (
          whole crc decompress decode layout,
          read_segment_layout-cut crc decompress decode d.seg layout tail found e,
          refl,
          refl,
        )

    put_in_place-Kept :
        (seg_tmp : Bytes) (new_idx : List IdxEntry)
        → Kept d (
            put_in_place crc compress decompress prost_decode decode d layout seg_tmp new_idx
              (read_segment_records_strict decode crc decompress seg_tmp))
    put_in_place-Kept seg_tmp new_idx =
        by_read (read_segment_records_strict decode crc decompress seg_tmp) refl
      where
        by_verify :
            (rewritten : List Bytes) (r : Try (Unit {0}))
            → read_segment_records_strict decode crc decompress seg_tmp ≡ ok rewritten
            → verify_rewrite layout.records rewritten ≡ r
            → Kept d (
                put_verified crc compress decompress prost_decode decode d layout seg_tmp new_idx r)
        by_verify rewritten (err e) p q = (refl, refl)
        by_verify rewritten (ok tt) p q =
            let same = verify_rewrite_sound layout.records rewritten q in
            (
              layout,
              found,
              subst (Holds seg_tmp) (sym same) (strict-Holds seg_tmp rewritten p),
              refl,
              refl,
              refl,
            )

        by_read :
            (r : Try (List Bytes))
            → read_segment_records_strict decode crc decompress seg_tmp ≡ r
            → Kept d (
                put_in_place crc compress decompress prost_decode decode d layout seg_tmp new_idx r)
        by_read (err e) p = (refl, refl)
        by_read (ok rewritten) p =
            by_verify rewritten (verify_rewrite layout.records rewritten) p refl

    check_and_put-Kept :
        (written : Bytes × Try (List IdxEntry))
        → Kept d (check_and_put crc compress decompress prost_decode decode d layout written)
    check_and_put-Kept (seg_tmp, err e) = (refl, refl)
    check_and_put-Kept (seg_tmp, ok new_idx) = put_in_place-Kept seg_tmp new_idx

    recompact_checked-Kept :
        (r : Try (Unit {0}))
        → Kept d (recompact_checked crc compress decompress prost_decode decode d layout r)
    unfolding rewrite_segment
    recompact_checked-Kept (err e) = (refl, refl)
    recompact_checked-Kept (ok tt) =
        elim layout.has_row_blocks
          as (λ b. Kept d (
            if b
            then rewrite_segment crc compress decompress prost_decode decode d layout
            else heal crc compress decompress prost_decode decode d layout)) [
              | true ↦ check_and_put-Kept _
              | false ↦ heal-Kept
            ]

  inner-Kept :
      (d : Disk)
      → Kept (without_tmp d) (recompact_segment_inner crc compress decompress prost_decode decode d)
  unfolding recompact_segment_inner
  inner-Kept d = by_layout (read_segment_layout decode crc decompress d.seg) refl
    where
      by_layout :
          (r : Try SegmentLayout)
          → read_segment_layout decode crc decompress d.seg ≡ r
          → Kept
              (without_tmp d)
              (recompact_layout crc compress decompress prost_decode decode (without_tmp d) r)
      by_layout (err e) p = (refl, refl)
      by_layout (ok layout) p =
          recompact_checked-Kept (without_tmp d) layout p (check_tail d.idx layout.torn_tail)

  -- Whatever the files hold and whatever prost and zstd return: recompaction succeeds with a
  -- segment that is read whole to the records of the old one, as many as its outcome says, or it
  -- fails with the segment and the index as they were. In either case both `.tmp` files are gone.
  pub recompact_segment-Kept :
      (d : Disk)
      → Kept d (recompact_segment crc compress decompress prost_decode decode d)
        × ((recompact_segment crc compress decompress prost_decode decode d).1.seg_tmp ≡ none)
        × ((recompact_segment crc compress decompress prost_decode decode d).1.idx_tmp ≡ none)
  unfolding recompact_segment
  recompact_segment-Kept d =
      by_result (recompact_segment_inner crc compress decompress prost_decode decode d)
        (inner-Kept d)
    where
      by_result :
          (r : Try RecompactOutcome × Disk)
          → Kept (without_tmp d) r
          → Kept d (clean crc compress decompress prost_decode decode r)
            × ((clean crc compress decompress prost_decode decode r).1.seg_tmp ≡ none)
            × ((clean crc compress decompress prost_decode decode r).1.idx_tmp ≡ none)
      by_result (ok out, d') k = (k, k.4, k.5)
      by_result (err e, d') k = (k, refl, refl)
