-- ===== src/Segment/Container/Blocks.antt =====
-- A block that is whole, where it stands in a file, is read.
use lol_crawler.Prelude.{
  ℕ, ◌+◌, ◌^◌, ◌<◌, ◌≤◌, ◌≡◌, refl, ap, ◌∙◌, Bool, true, Option, some, List, ◌++◌, length, take,
  drop, leb, ltb, ==_self, append_assoc, length-append, length-drop, take_prefix, arith,
}
use lol_crawler.Prelude.Result.{ok}
use lol_crawler.Columnar.Varint.{Bytes}
use lol_crawler.Segment.Little.{to_le, le_at, length-to_le, le_at-to_le, drop-to_le}
use lol_crawler.Segment.Container.{
  seg_magic, col_magic, block_header_len, max_segment_block_bytes, known_segment_magic,
  SegmentBlockKind, SegmentBlock, container, kind_of, decode_kind, read_block,
}

abbrev pub magic_of : SegmentBlockKind → ℕ
magic_of SegmentBlockKind.row = seg_magic
magic_of SegmentBlockKind.columnar = col_magic

pub record Block : Type 0 where
  pub kind : SegmentBlockKind
  pub block : Bytes
  pub compressed : Bytes
  pub records : List Bytes
  pub rec_offsets : List ℕ

abbrev pub end_of : ℕ → Block → ℕ
end_of pos b = pos + block_header_len + length b.compressed

abbrev pub block_at : ℕ → Block → SegmentBlock
block_at pos b = record {
  kind = b.kind;
  block_off = pos;
  next_off = end_of pos b;
  records = b.records;
  rec_offsets = b.rec_offsets;
}

kind_of-magic_of : (k : SegmentBlockKind) → kind_of (magic_of k) ≡ k
kind_of-magic_of SegmentBlockKind.row = refl
kind_of-magic_of SegmentBlockKind.columnar = refl

pub known-magic_of : (k : SegmentBlockKind) → known_segment_magic (magic_of k) ≡ true
known-magic_of SegmentBlockKind.row = refl
known-magic_of SegmentBlockKind.columnar = refl

pub magic_of-u32 : (k : SegmentBlockKind) → magic_of k < 2 ^ 32
magic_of-u32 SegmentBlockKind.row = omega arith
magic_of-u32 SegmentBlockKind.columnar = omega arith

-- The compressed bytes of a header, behind its four integers.
pub length-container :
    (magic crc clen ulen : ℕ) (compressed : Bytes)
    → length (container magic crc clen ulen compressed) ≡ block_header_len + length compressed
length-container magic crc clen ulen compressed = omega (
  arith,
  length-append (to_le 4 magic) (to_le 4 crc ++ (to_le 4 clen ++ (to_le 4 ulen ++ compressed))),
  length-append (to_le 4 crc) (to_le 4 clen ++ (to_le 4 ulen ++ compressed)),
  length-append (to_le 4 clen) (to_le 4 ulen ++ compressed),
  length-append (to_le 4 ulen) compressed,
  length-to_le 4 magic,
  length-to_le 4 crc,
  length-to_le 4 clen,
  length-to_le 4 ulen,
)

-- What the header of a container says.
pub record Header (f : Bytes) (pos magic crc clen ulen : ℕ) (behind : Bytes) : Type 0 where
  pub at_magic : le_at 4 f pos ≡ magic
  pub at_crc : le_at 4 f (pos + 4) ≡ crc
  pub at_clen : le_at 4 f (pos + 8) ≡ clen
  pub at_ulen : le_at 4 f (pos + 12) ≡ ulen
  pub after : drop (pos + block_header_len) f ≡ behind

pub container-Header :
    (f : Bytes) (pos magic crc clen ulen : ℕ) (behind : Bytes)
    → magic < 2 ^ 32
    → crc < 2 ^ 32
    → clen < 2 ^ 32
    → ulen < 2 ^ 32
    → drop pos f ≡ container magic crc clen ulen behind
    → Header f pos magic crc clen ulen behind
container-Header f pos magic crc clen ulen behind hm hc hl hu e =
    let d1 = drop-to_le 4 magic f pos _ e in
    let d2 : drop (pos + 8) f ≡ to_le 4 clen ++ (to_le 4 ulen ++ behind) =
      ap (λ n. drop n f) (omega arith) ∙ drop-to_le 4 crc f (pos + 4) _ d1 in
    let d3 : drop (pos + 12) f ≡ to_le 4 ulen ++ behind =
      ap (λ n. drop n f) (omega arith) ∙ drop-to_le 4 clen f (pos + 8) _ d2 in
    record {
      at_magic = le_at-to_le 4 magic f pos _ (omega arith) e;
      at_crc = le_at-to_le 4 crc f (pos + 4) _ (omega arith) d1;
      at_clen = le_at-to_le 4 clen f (pos + 8) _ (omega arith) d2;
      at_ulen = le_at-to_le 4 ulen f (pos + 12) _ (omega arith) d3;
      after = ap (λ n. drop n f) (omega arith) ∙ drop-to_le 4 ulen f (pos + 12) _ d3;
    }

module _ (crc : Bytes → ℕ) (decompress : Bytes → ℕ → Option Bytes) where
  -- The block's bytes, and what makes it whole.
  abbrev pub block_bytes : Block → Bytes
  block_bytes b =
      container (magic_of b.kind) (crc b.compressed) (length b.compressed) (length b.block)
        b.compressed

  pub record IsIntact (b : Block) : Type 0 where
    pub compressed_fits : length b.compressed ≤ max_segment_block_bytes
    pub block_fits : length b.block ≤ max_segment_block_bytes
    pub crc_fits : crc b.compressed < 2 ^ 32
    pub unpacks : decompress b.compressed (length b.block) ≡ some b.block
    pub content :
        (strict : Bool) → decode_kind b.kind b.block strict ≡ ok (b.records, b.rec_offsets)

  container_rest :
      (magic c clen ulen : ℕ) (compressed rest : Bytes)
      → container magic c clen ulen compressed ++ rest
        ≡ container magic c clen ulen (compressed ++ rest)
  container_rest magic c clen ulen compressed rest = simp append_assoc

  pub block-Header :
      (b : Block) (f : Bytes) (pos : ℕ) (rest : Bytes)
      → IsIntact b
      → drop pos f ≡ block_bytes b ++ rest
      → Header f pos
          (magic_of b.kind)
          (crc b.compressed)
          (length b.compressed)
          (length b.block)
          (b.compressed ++ rest)
  block-Header b f pos rest h e =
      container-Header f pos (magic_of b.kind) (crc b.compressed) (length b.compressed)
        (length b.block) _ (magic_of-u32 b.kind) h.crc_fits (omega (arith, h.compressed_fits))
        (omega (arith, h.block_fits))
        (e
          ∙ container_rest (magic_of b.kind) (crc b.compressed) (length b.compressed)
              (length b.block) b.compressed rest)

  pub read_block-intact :
      (b : Block) (f : Bytes) (pos : ℕ) (strict : Bool) (rest : Bytes)
      → IsIntact b
      → length f < 2 ^ 64
      → pos ≤ length f
      → drop pos f ≡ block_bytes b ++ rest
      → read_block crc decompress f pos strict ≡ ok (block_at pos b)
  unfolding read_block
  read_block-intact b f pos strict rest h size within e =
      let hd = block-Header b f pos rest h e in
      let room : length f ≡ pos + (block_header_len + length b.compressed + length rest) = omega (
        arith,
        length-drop pos f,
        ap length e,
        length-append (block_bytes b) rest,
        length-container (magic_of b.kind) (crc b.compressed) (length b.compressed) (length b.block)
            b.compressed,
      ) in
      let c1 : leb (pos + block_header_len) (length f) ≡ true = ground (arith, room) in
      let c2 : ltb (pos + block_header_len + length b.compressed) (2 ^ 64) ≡ true =
        ground (arith, room) in
      let c3 : leb (pos + block_header_len + length b.compressed) (length f) ≡ true =
        ground (arith, room) in
      let c4 : leb (length b.compressed) max_segment_block_bytes ≡ true =
        ground (arith, h.compressed_fits) in
      let c5 : leb (length b.block) max_segment_block_bytes ≡ true = ground (arith, h.block_fits) in
      let body : take (length b.compressed) (drop (pos + block_header_len) f) ≡ b.compressed =
        ap (take (length b.compressed)) hd.after ∙ take_prefix b.compressed rest in
      rw (hd.at_magic, hd.at_crc, hd.at_clen, hd.at_ulen)
        (rw (body, c1, c2, c3, c4, c5, known-magic_of b.kind)
          (rw (==_self (crc b.compressed), h.unpacks)
            (rw (==_self (length b.block), kind_of-magic_of b.kind, h.content strict) refl)))
