-- ===== src/Segment/Container/Read.antt =====
-- The readers of a whole file: blocks, and what a crash left behind them.
use lol_crawler.Prelude.{
  ℕ, zero, suc, ◌+◌, ◌^◌, ◌<◌, ◌≤◌, ◌≡◌, ◌⊎◌, inl, inr, refl, sym, ap, ◌∙◌, Bool, true, false,
  Bool-cases, Option, none, some, List, [], ◌∷◌, ◌++◌, length, drop, leb, ltb, append-nil,
  append_assoc, length-append, length-drop, drop_prefix, drop-drop, All, arith,
}
use lol_crawler.Prelude.Result.{ok}
use lol_crawler.Columnar.Varint.{Bytes}
use lol_crawler.Segment.Little.{le_at}
use lol_crawler.Segment.Container.{
  block_header_len, known_segment_magic, read_segment_block, records_loop, read_segment_records,
  validate_loop, validate_segment, invalid_block,
}
use lol_crawler.Segment.Container.Blocks.{
  Block, magic_of, known-magic_of, end_of, block_at, block_bytes, block-Header, IsIntact,
  length-container, read_block-intact,
}
use lol_crawler.Segment.Container.Torn.{
  IsTail, nothing, torn, IsTorn-Short, read_block-Short, Short, headless, bodiless,
}

module _ (crc : Bytes → ℕ) (decompress : Bytes → ℕ → Option Bytes) where
  abbrev pub blocks_bytes : List Block → Bytes
  blocks_bytes [] = []
  blocks_bytes (b ∷ bs) = block_bytes crc decompress b ++ blocks_bytes bs

  abbrev pub all_records : List Block → List Bytes
  all_records [] = []
  all_records (b ∷ bs) = b.records ++ all_records bs

  pub length-block :
      (b : Block) → length (block_bytes crc decompress b) ≡ block_header_len + length b.compressed
  length-block b =
      length-container (magic_of b.kind) (crc b.compressed) (length b.compressed) (length b.block)
        b.compressed

  pub length-blocks : (bs : List Block) → length bs ≤ length (blocks_bytes bs)
  length-blocks [] = omega arith
  length-blocks (b ∷ bs) = omega (
    arith,
    length-blocks bs,
    length-append (block_bytes crc decompress b) (blocks_bytes bs),
    length-block b,
  )

  -- Where a file goes on behind a block.
  pub step_block :
      (b : Block) (f : Bytes) (pos : ℕ) (rest : Bytes)
      → drop pos f ≡ block_bytes crc decompress b ++ rest
      → pos ≤ length f
      → (drop (end_of pos b) f ≡ rest) × (end_of pos b ≤ length f)
  step_block b f pos rest e within =
      let len = length-block b in
      (
        ap (λ n. drop n f) (omega (arith, len))
            ∙ sym (drop-drop pos (length (block_bytes crc decompress b)) f)
            ∙ ap (drop (length (block_bytes crc decompress b))) e
            ∙ drop_prefix (block_bytes crc decompress b) rest,
        omega (
          arith,
          len,
          length-drop pos f,
          ap length e,
          length-append (block_bytes crc decompress b) rest,
        ),
      )

  pub read-intact :
      (b : Block) (f : Bytes) (pos : ℕ) (strict : Bool) (rest : Bytes)
      → IsIntact crc decompress b
      → length f < 2 ^ 63
      → pos ≤ length f
      → drop pos f ≡ block_bytes crc decompress b ++ rest
      → read_segment_block crc decompress f pos strict ≡ ok (some (block_at pos b))
  unfolding read_segment_block
  read-intact b f pos strict rest h size within e =
      let got = read_block-intact crc decompress b f pos strict rest h (omega arith) within e in
      rw got (ok_kept strict)
    where
      ok_kept : (s : Bool) → invalid_block s (ok (block_at pos b)) ≡ ok (some (block_at pos b))
      ok_kept true = refl
      ok_kept false = refl

  read-Short :
      (f : Bytes) (pos : ℕ)
      → length f < 2 ^ 63
      → pos ≤ length f
      → Short f pos
      → read_segment_block crc decompress f pos false ≡ ok none
  unfolding read_segment_block
  read-Short f pos size within s =
      let (e, got) = read_block-Short crc decompress f pos false size within s in rw got refl

  module _ (f tail : Bytes) (size : length f < 2 ^ 63) (end : IsTail crc decompress tail) where
    Short-or-done : (pos : ℕ) → pos ≤ length f → drop pos f ≡ tail → (pos ≡ length f) ⊎ Short f pos
    Short-or-done pos within e = elim end [
      | nothing h ↦ inl (omega (arith, length-drop pos f, ap length (e ∙ h)))
      | torn t ↦ inr (IsTorn-Short crc decompress tail f pos t within e)
    ]

    records_loop-blocks :
        (bs : List Block) (rounds pos : ℕ) (records : List Bytes)
        → All (IsIntact crc decompress) bs
        → length bs < rounds
        → pos ≤ length f
        → drop pos f ≡ blocks_bytes bs ++ tail
        → records_loop crc decompress rounds f pos records ≡ ok (records ++ all_records bs)
    unfolding records_loop
    records_loop-blocks bs zero pos records h few within e = absurd (omega arith)
    records_loop-blocks [] (suc rounds) pos records h few within e =
        elim (Short-or-done pos within e) [
          | inl done ↦
              let c : ltb pos (length f) ≡ false = ground (arith, done) in
              rw c (ap ok (sym (append-nil records)))
          | inr s ↦ elim (Bool-cases (ltb pos (length f))) [
            | inl t ↦ rw t (rw (read-Short f pos size within s) (ap ok (sym (append-nil records))))
            | inr n ↦ rw n (ap ok (sym (append-nil records)))
          ]
        ]
    records_loop-blocks (b ∷ bs) (suc rounds) pos records h few within e =
        let e' : drop pos f ≡ block_bytes crc decompress b ++ (blocks_bytes bs ++ tail) =
          e ∙ append_assoc _ (blocks_bytes bs) tail in
        let (behind, within') = step_block b f pos _ e' within in
        let c : ltb pos (length f) ≡ true = ground (arith, within', length-block b) in
        rw c (
          rw (read-intact b f pos false _ h.0 size within e') (
            records_loop-blocks bs rounds (end_of pos b) (records ++ b.records) h.1 (omega arith)
              within' behind
            ∙ ap ok (append_assoc records b.records (all_records bs))))

    validate_loop-blocks :
        (bs : List Block) (rounds pos : ℕ)
        → All (IsIntact crc decompress) bs
        → length bs < rounds
        → pos ≤ length f
        → drop pos f ≡ blocks_bytes bs ++ tail
        → validate_loop rounds f pos ≡ ok (pos + length (blocks_bytes bs))
    unfolding validate_loop
    validate_loop-blocks bs zero pos h few within e = absurd (omega arith)
    validate_loop-blocks [] (suc rounds) pos h few within e = elim (Short-or-done pos within e) [
      | inl done ↦
          let c : leb (pos + block_header_len) (length f) ≡ false = ground (arith, done) in
          rw c (ap ok (omega arith))
      | inr (headless s) ↦
          let c : leb (pos + block_header_len) (length f) ≡ false = ground (arith, s) in
          rw c (ap ok (omega arith))
      | inr (bodiless s1 s2 s3 s4) ↦
          let c1 : leb (pos + block_header_len) (length f) ≡ true = ground (arith, s1) in
          let c2 : leb (pos + block_header_len + le_at 4 f (pos + 8)) (length f) ≡ false =
            ground (arith, s3) in
          rw (c1, s2, c2) (ap ok (omega arith))
    ]
    validate_loop-blocks (b ∷ bs) (suc rounds) pos h few within e =
        let e' : drop pos f ≡ block_bytes crc decompress b ++ (blocks_bytes bs ++ tail) =
          e ∙ append_assoc _ (blocks_bytes bs) tail in
        let (behind, within') = step_block b f pos _ e' within in
        let hd = block-Header crc decompress b f pos _ h.0 e' in
        let known = ap known_segment_magic hd.at_magic ∙ known-magic_of b.kind in
        let c1 : leb (pos + block_header_len) (length f) ≡ true = ground (arith, within') in
        let c2 : leb (pos + block_header_len + length b.compressed) (length f) ≡ true =
          ground (arith, within') in
        rw hd.at_clen (
          rw (c1, known, c2)
            (validate_loop-blocks bs rounds (end_of pos b) h.1 (omega arith) within' behind
              ∙ ap ok (
                  omega (
                    arith,
                    length-append (block_bytes crc decompress b) (blocks_bytes bs),
                    length-block b,
                  ))))

  -- A file shorter than 2^63 bytes, of whole blocks with a torn one at its end, or none, is read
  -- to the records of the whole blocks, in order.
  pub read_segment_records-blocks :
      (bs : List Block) (tail : Bytes)
      → All (IsIntact crc decompress) bs
      → IsTail crc decompress tail
      → length (blocks_bytes bs ++ tail) < 2 ^ 63
      → read_segment_records crc decompress (blocks_bytes bs ++ tail) ≡ ok (all_records bs)
  unfolding read_segment_records
  read_segment_records-blocks bs tail h end size =
      records_loop-blocks (blocks_bytes bs ++ tail) tail size end bs
        (suc (length (blocks_bytes bs ++ tail))) 0 [] h
        (omega (arith, length-blocks bs, length-append (blocks_bytes bs) tail)) (omega arith) refl

  -- Of such a file, exactly the whole blocks are kept when it is opened to be written on.
  pub validate_segment-blocks :
      (bs : List Block) (tail : Bytes)
      → All (IsIntact crc decompress) bs
      → IsTail crc decompress tail
      → length (blocks_bytes bs ++ tail) < 2 ^ 63
      → validate_segment (blocks_bytes bs ++ tail) ≡ ok (length (blocks_bytes bs))
  unfolding validate_segment
  validate_segment-blocks bs tail h end size =
      validate_loop-blocks (blocks_bytes bs ++ tail) tail size end bs
        (suc (length (blocks_bytes bs ++ tail))) 0 h
        (omega (arith, length-blocks bs, length-append (blocks_bytes bs) tail)) (omega arith) refl
      ∙ ap ok (omega arith)
