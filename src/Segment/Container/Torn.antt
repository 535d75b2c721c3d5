-- ===== src/Segment/Container/Torn.antt =====
-- The end of a segment file: nothing, or the front of a block that was never written to its end.
use lol_crawler.Prelude.{
  ℕ, ◌+◌, ◌^◌, ◌<◌, ◌≤◌, ◌≡◌, ◌≢◌, inl, inr, refl, sym, ap, ◌∙◌, Bool, true, false, Bool-cases,
  Option, [], ◌∷◌, ◌++◌, length, drop, leb, ltb, append-nil, append_assoc, length-append,
  length-drop, arith,
}
use lol_crawler.Prelude.Result.{err}
use lol_crawler.Columnar.Varint.{Bytes}
use lol_crawler.Segment.Error.{truncated_header, truncated_block}
use lol_crawler.Segment.Error
use lol_crawler.Segment.Little.{to_le, le_at}
use lol_crawler.Segment.Container.{
  block_header_len, known_segment_magic, container, Fault, read_block,
}
use lol_crawler.Segment.Container.Blocks.{
  Block, magic_of, known-magic_of, magic_of-u32, container-Header, block_bytes, IsIntact,
  length-container,
}

-- A list that starts with another, longer than the first part of a split, starts with that part.
longer_prefix :
    (a b t m : Bytes)
    → t ++ m ≡ a ++ b
    → length a ≤ length t
    → (x : Bytes) × (t ≡ a ++ x) × (b ≡ x ++ m)
longer_prefix [] b t m e h = (t, refl, sym e)
longer_prefix (c ∷ a) b [] m e h = absurd (omega arith)
longer_prefix (c ∷ a) b (d ∷ t) m e h =
    let head : d ≡ c = cc e in
    let tails : t ++ m ≡ a ++ b = cc e in
    let (x, p, q) = longer_prefix a b t m tails (omega arith) in (x, cc (head, p), q)

container_front : ℕ → ℕ → ℕ → ℕ → Bytes
container_front magic crc clen ulen =
    to_le 4 magic ++ (to_le 4 crc ++ (to_le 4 clen ++ to_le 4 ulen))

front_rest :
    (magic crc clen ulen : ℕ) (x : Bytes)
    → container_front magic crc clen ulen ++ x ≡ container magic crc clen ulen x
unfolding container_front
front_rest magic crc clen ulen x = simp append_assoc

length-front : (magic crc clen ulen : ℕ) → length (container_front magic crc clen ulen) ≡ 16
length-front magic crc clen ulen =
    let whole : container_front magic crc clen ulen ≡ container magic crc clen ulen [] =
      sym (append-nil _) ∙ front_rest magic crc clen ulen [] in
    ap length whole ∙ length-container magic crc clen ulen [] ∙ omega arith

-- What the readers see of a torn block: no header, or fewer bytes than the header says.
pub data Short (f : Bytes) (pos : ℕ) : Type 0 where
  headless : length f < pos + block_header_len → Short f pos
  bodiless :
      pos + block_header_len ≤ length f
      → known_segment_magic (le_at 4 f pos) ≡ true
      → length f < pos + block_header_len + le_at 4 f (pos + 8)
      → le_at 4 f (pos + 8) < 2 ^ 32
      → Short f pos

module _ (crc : Bytes → ℕ) (decompress : Bytes → ℕ → Option Bytes) where
  -- A block cut short: some of its bytes are missing at the end, and not all of them.
  pub record IsTorn (tail : Bytes) : Type 0 where
    pub block : Block
    pub intact : IsIntact crc decompress block
    pub missing : Bytes
    pub cut : tail ++ missing ≡ block_bytes crc decompress block
    pub some_missing : missing ≢ []

  pub data IsTail (tail : Bytes) : Type 0 where
    nothing : tail ≡ [] → IsTail tail
    torn : IsTorn tail → IsTail tail

  nonempty : (xs : Bytes) → xs ≢ [] → 0 < length xs
  nonempty [] h = absurd (h refl)
  nonempty (x ∷ xs) h = omega arith

  pub IsTorn-Short :
      (tail f : Bytes) (pos : ℕ) → IsTorn tail → pos ≤ length f → drop pos f ≡ tail → Short f pos
  IsTorn-Short tail f pos t within e = elim (Bool-cases (leb 16 (length tail))) [
    | inl long ↦
        let b : Block = t.block in
        let m : ℕ = magic_of b.kind in
        let c : ℕ = crc b.compressed in
        let cl : ℕ = length b.compressed in
        let ul : ℕ = length b.block in
        let (x, p, q) =
          longer_prefix (container_front m c cl ul) b.compressed tail t.missing
            (t.cut ∙ sym (front_rest m c cl ul b.compressed))
            (ground (arith, long, length-front m c cl ul)) in
        let stands : drop pos f ≡ container m c cl ul x = e ∙ p ∙ front_rest m c cl ul x in
        let hd =
          container-Header f pos m c cl ul x (magic_of-u32 b.kind) t.intact.crc_fits
            (omega (arith, t.intact.compressed_fits)) (omega (arith, t.intact.block_fits)) stands in
        let size : length f ≡ pos + (16 + length x) =
          omega (arith, length-drop pos f, ap length stands, length-container m c cl ul x) in
        let lost = nonempty t.missing t.some_missing in
        let short : cl ≡ length x + length t.missing = ap length q ∙ length-append x t.missing in
        bodiless (omega (arith, size)) (ap known_segment_magic hd.at_magic ∙ known-magic_of b.kind)
          (omega (arith, size, short, lost, hd.at_clen))
          (omega (arith, hd.at_clen, t.intact.compressed_fits))
    | inr few ↦
        let size = length-drop pos f in
        let same : length (drop pos f) ≡ length tail = ap length e in
        let less : length tail < 16 = ground (arith, few) in
        headless (omega (arith, size, same, less))
  ]

  pub read_block-Short :
      (f : Bytes) (pos : ℕ) (strict : Bool)
      → length f < 2 ^ 63
      → pos ≤ length f
      → Short f pos
      → (e : Error.Error) × (read_block crc decompress f pos strict ≡ err (Fault.invalid e))
  unfolding read_block
  read_block-Short f pos strict size within (headless h) =
      let c1 : leb (pos + block_header_len) (length f) ≡ false = ground (arith, h) in
      (truncated_header, rw c1 refl)
  read_block-Short f pos strict size within (bodiless h1 h2 h3 h4) =
      let c1 : leb (pos + block_header_len) (length f) ≡ true = ground (arith, h1) in
      let c2 : ltb (pos + block_header_len + le_at 4 f (pos + 8)) (2 ^ 64) ≡ true =
        ground (arith, h4) in
      let c3 : leb (pos + block_header_len + le_at 4 f (pos + 8)) (length f) ≡ false =
        ground (arith, h3) in
      (truncated_block, rw (c1, c2, h2, c3) refl)
