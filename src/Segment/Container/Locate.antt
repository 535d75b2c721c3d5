-- ===== src/Segment/Container/Locate.antt =====
-- A record is found by the offset of its block and its own place in the block.
use lol_crawler.Prelude.{
  ℕ, suc, ◌+◌, ◌^◌, ◌<◌, ◌≤◌, ◌≡◌, refl, sym, ap, subst, ◌∙◌, true, false, Option, some, List, [],
  ◌∷◌, ◌++◌, length, get_elem?, drop, ◌==◌, ==_self, append_assoc, length-append, All, arith,
}
use lol_crawler.Prelude.Result.{ok}
use lol_crawler.Columnar.Varint.{Bytes}
use lol_crawler.Segment.Rows.RoundTrip.{row_offsets}
use lol_crawler.Segment.Container.{
  SegmentBlockKind, ordinals, read_segment_block, record_at, located, found, read_record_at,
}
use lol_crawler.Segment.Container.Blocks.{Block, end_of, block_at, block_bytes, IsIntact}
use lol_crawler.Segment.Container.Read.{blocks_bytes, all_records, read-intact, step_block}

-- The places of a block's records: byte offsets in a row block, ordinals in a columnar one.
abbrev pub placed : SegmentBlockKind → List Bytes → List ℕ
placed SegmentBlockKind.row records = row_offsets 0 records
placed SegmentBlockKind.columnar records = ordinals 0 records

abbrev pub at_block : ℕ → List ℕ → List (ℕ × ℕ)
at_block pos [] = []
at_block pos (off ∷ offs) = (pos, off) ∷ at_block pos offs

abbrev pub locators : ℕ → List Block → List (ℕ × ℕ)
locators pos [] = []
locators pos (b ∷ bs) = at_block pos b.rec_offsets ++ locators (end_of pos b) bs

-- The record at each place, where every place of a list stands for one of the records.
abbrev pub AllLocated : (ℕ → ℕ → Bytes → Type 0) → List (ℕ × ℕ) → List Bytes → Type 0
AllLocated P [] [] = Unit {0}
AllLocated P ((b, o) ∷ ls) (r ∷ rs) = P b o r × AllLocated P ls rs
AllLocated P _ _ = ⊥

pub AllLocated-append :
    (P : ℕ → ℕ → Bytes → Type 0) (ls ms : List (ℕ × ℕ)) (rs ss : List Bytes)
    → AllLocated P ls rs
    → AllLocated P ms ss
    → AllLocated P (ls ++ ms) (rs ++ ss)
AllLocated-append P [] ms [] ss h k = k
AllLocated-append P [] ms (r ∷ rs) ss h k = absurd h
AllLocated-append P ((b, o) ∷ ls) ms [] ss h k = absurd h
AllLocated-append P ((b, o) ∷ ls) ms (r ∷ rs) ss h k = (h.0, AllLocated-append P ls ms rs ss h.1 k)

module _ (crc : Bytes → ℕ) (decompress : Bytes → ℕ → Option Bytes) where
  offset_after : ℕ → List Bytes → ℕ
  offset_after off [] = off
  offset_after off (r ∷ rs) = offset_after (off + 4 + length r) rs

  offset_after-le : (off : ℕ) (rs : List Bytes) → off ≤ offset_after off rs
  unfolding offset_after
  offset_after-le off [] = omega arith
  offset_after-le off (r ∷ rs) = omega (arith, offset_after-le (off + 4 + length r) rs)

  record_at-row_offsets :
      (off : ℕ) (pre : List Bytes) (r : Bytes) (post : List Bytes)
      → record_at crc decompress
          (offset_after off pre)
          (row_offsets off (pre ++ (r ∷ post)))
          (pre ++ (r ∷ post))
        ≡ some r
  unfolding offset_after
  record_at-row_offsets off [] r post = rw (==_self off) refl
  record_at-row_offsets off (p ∷ pre) r post =
      let past : (off == offset_after (off + 4 + length p) pre) ≡ false =
        ground (arith, offset_after-le (off + 4 + length p) pre) in
      rw past (record_at-row_offsets (off + 4 + length p) pre r post)

  get_elem?-behind :
      (pre : List Bytes) (r : Bytes) (post : List Bytes)
      → get_elem? (pre ++ (r ∷ post)) (length pre) ≡ some r
  get_elem?-behind [] r post = refl
  get_elem?-behind (p ∷ pre) r post = get_elem?-behind pre r post

  offset_after-append :
      (off : ℕ) (pre : List Bytes) (r : Bytes)
      → offset_after off (pre ++ (r ∷ [])) ≡ offset_after off pre + 4 + length r
  unfolding offset_after
  offset_after-append off [] r = refl
  offset_after-append off (p ∷ pre) r = offset_after-append (off + 4 + length p) pre r

  -- What is asked of a locator.
  abbrev pub Reads : Bytes → ℕ → ℕ → Bytes → Type 0
  Reads f block_off rec_off r = read_record_at crc decompress f block_off rec_off ≡ ok r

  abbrev pub IsPlaced : Block → Type 0
  IsPlaced b = b.rec_offsets ≡ placed b.kind b.records

  module _ (b : Block) (f : Bytes) (pos : ℕ)
      (got : read_segment_block crc decompress f pos true ≡ ok (some (block_at pos b))) where
    Reads-by :
        (off : ℕ) (r : Bytes)
        → located crc decompress off b.kind (block_at pos b) ≡ some r
        → Reads f pos off r
    unfolding read_record_at
    Reads-by off r e = rw got (ap (found crc decompress) e)

    rows_located :
        (pre rs : List Bytes)
        → b.kind ≡ SegmentBlockKind.row
        → b.records ≡ pre ++ rs
        → b.rec_offsets ≡ row_offsets 0 b.records
        → AllLocated (Reads f) (at_block pos (row_offsets (offset_after 0 pre) rs)) rs
    rows_located pre [] k e p = tt
    rows_located pre (r ∷ rs) k e p =
        let next : b.records ≡ (pre ++ (r ∷ [])) ++ rs = e ∙ sym (append_assoc pre (r ∷ []) rs) in
        let here : located crc decompress (offset_after 0 pre) b.kind (block_at pos b) ≡ some r =
          ap (λ t. located crc decompress (offset_after 0 pre) t (block_at pos b)) k
          ∙ ap (λ t. record_at crc decompress (offset_after 0 pre) t b.records) p
          ∙ ap (λ t. record_at crc decompress (offset_after 0 pre) (row_offsets 0 t) t) e
          ∙ record_at-row_offsets 0 pre r rs in
        (
          Reads-by (offset_after 0 pre) r here,
          subst (λ n. AllLocated (Reads f) (at_block pos (row_offsets n rs)) rs)
              (offset_after-append 0 pre r) (rows_located (pre ++ (r ∷ [])) rs k next p),
        )

    columns_located :
        (pre rs : List Bytes)
        → b.kind ≡ SegmentBlockKind.columnar
        → b.records ≡ pre ++ rs
        → AllLocated (Reads f) (at_block pos (ordinals (length pre) rs)) rs
    columns_located pre [] k e = tt
    columns_located pre (r ∷ rs) k e =
        let next : b.records ≡ (pre ++ (r ∷ [])) ++ rs = e ∙ sym (append_assoc pre (r ∷ []) rs) in
        let here : located crc decompress (length pre) b.kind (block_at pos b) ≡ some r =
          ap (λ t. located crc decompress (length pre) t (block_at pos b)) k
          ∙ ap (λ t. get_elem? t (length pre)) e
          ∙ get_elem?-behind pre r rs in
        let one : length (pre ++ (r ∷ [])) ≡ suc (length pre) =
          omega (arith, length-append pre (r ∷ [])) in
        (
          Reads-by (length pre) r here,
          subst (λ n. AllLocated (Reads f) (at_block pos (ordinals n rs)) rs) one
              (columns_located (pre ++ (r ∷ [])) rs k next),
        )

    block_located : IsPlaced b → AllLocated (Reads f) (at_block pos b.rec_offsets) b.records
    unfolding offset_after
    block_located p = by_kind b.kind refl p
      where
        by_kind :
            (k : SegmentBlockKind)
            → b.kind ≡ k
            → b.rec_offsets ≡ placed k b.records
            → AllLocated (Reads f) (at_block pos b.rec_offsets) b.records
        by_kind SegmentBlockKind.row k e = rw e (rows_located [] b.records k refl e)
        by_kind SegmentBlockKind.columnar k e = rw e (columns_located [] b.records k refl)

  located_from :
      (bs : List Block) (f : Bytes) (pos : ℕ) (tail : Bytes)
      → All (IsIntact crc decompress) bs
      → All IsPlaced bs
      → length f < 2 ^ 63
      → pos ≤ length f
      → drop pos f ≡ blocks_bytes crc decompress bs ++ tail
      → AllLocated (Reads f) (locators pos bs) (all_records crc decompress bs)
  located_from [] f pos tail h p size within e = tt
  located_from (b ∷ bs) f pos tail h p size within e =
      let e' =
        e ∙ append_assoc (block_bytes crc decompress b) (blocks_bytes crc decompress bs) tail in
      let (behind, within') = step_block crc decompress b f pos _ e' within in
      AllLocated-append (Reads f) (at_block pos b.rec_offsets) (locators (end_of pos b) bs)
        b.records _
        (block_located b f pos (read-intact crc decompress b f pos true _ h.0 size within e') p.0)
        (located_from bs f (end_of pos b) tail h.1 p.1 size within' behind)

  -- In a file of whole blocks, whatever follows them, the locator of each record reads that record.
  pub read_record_at-locators :
      (bs : List Block) (tail : Bytes)
      → All (IsIntact crc decompress) bs
      → All IsPlaced bs
      → length (blocks_bytes crc decompress bs ++ tail) < 2 ^ 63
      → AllLocated
          (Reads (blocks_bytes crc decompress bs ++ tail))
          (locators 0 bs)
          (all_records crc decompress bs)
  read_record_at-locators bs tail h p size =
      located_from bs (blocks_bytes crc decompress bs ++ tail) 0 tail h p size (omega arith) refl
