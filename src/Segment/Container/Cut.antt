-- ===== src/Segment/Container/Cut.antt =====
-- What a reader sees of a file that is cut.
use lol_crawler.Prelude.{
  ℕ, zero, suc, ◌+◌, ◌^◌, ◌≤◌, ◌≡◌, refl, sym, ap, Bool, true, false, Option, some, [], ◌∷◌, length,
  take, drop, leb, ltb, ◌==◌, arith,
}
use lol_crawler.Prelude.Result.{Result, ok, err, ensure, bind_ok}
use lol_crawler.Columnar.Varint.{Bytes}
use lol_crawler.Segment.Error.{
  truncated_header, length_overflow, unknown_magic, truncated_block, compressed_too_large,
  uncompressed_too_large, crc_mismatch, length_mismatch,
}
use lol_crawler.Segment.Little.{le_at, from_le}
use lol_crawler.Segment.Container.{
  block_header_len, max_segment_block_bytes, known_segment_magic, kind_of, decode_kind,
  decompressed, SegmentBlock, Fault, invalid_block, read_block, read_segment_block,
}

pub take-take : (k m : ℕ) (xs : Bytes) → k ≤ m → take k (take m xs) ≡ take k xs
take-take zero m xs h = refl
take-take (suc k) zero xs h = absurd (omega arith)
take-take (suc k) (suc m) [] h = refl
take-take (suc k) (suc m) (x ∷ xs) h = ap (λ t. x ∷ t) (take-take k m xs (omega arith))

pub window-take :
    (k p m : ℕ) (xs : Bytes) → p + k ≤ m → take k (drop p (take m xs)) ≡ take k (drop p xs)
window-take k zero m xs h = take-take k m xs (omega arith)
window-take k (suc p) zero xs h = absurd (omega arith)
window-take k (suc p) (suc m) [] h = refl
window-take k (suc p) (suc m) (x ∷ xs) h = window-take k p m xs (omega arith)

pub length-take : (m : ℕ) (xs : Bytes) → m ≤ length xs → length (take m xs) ≡ m
length-take zero xs h = refl
length-take (suc m) [] h = absurd (omega arith)
length-take (suc m) (x ∷ xs) h = ap suc (length-take m xs (omega arith))

pub le_at-take : (k : ℕ) (f : Bytes) (p m : ℕ) → p + k ≤ m → le_at k (take m f) p ≡ le_at k f p
unfolding le_at
le_at-take k f p m h = ap from_le (window-take k p m f h)

pub ensure-true : {E : Type 0} (b : Bool) (e : E) → ensure b e ≡ ok tt → b ≡ true
ensure-true true e h = refl
ensure-true false e h = cc

module _ (crc : Bytes → ℕ) (decompress : Bytes → ℕ → Option Bytes) where
  -- Where a block that was read ends.
  pub next_off-read :
      (f : Bytes) (pos : ℕ) (strict : Bool) (b : SegmentBlock)
      → read_block crc decompress f pos strict ≡ ok b
      → (b.next_off ≡ pos + block_header_len + le_at 4 f (pos + 8)) × (b.next_off ≤ length f)
  unfolding read_block
  next_off-read f pos strict b e =
      let clen : ℕ = le_at 4 f (pos + 8) in
      let next : ℕ = pos + block_header_len + clen in
      let (_, e1, k1) =
        bind_ok (ensure (leb (pos + block_header_len) (length f)) (Fault.invalid truncated_header))
          _ e in
      let (_, e2, k2) = bind_ok (ensure (ltb next (2 ^ 64)) (Fault.hard length_overflow)) _ k1 in
      let (_, e3, k3) =
        bind_ok (ensure (known_segment_magic (le_at 4 f pos)) (Fault.invalid unknown_magic)) _ k2 in
      let (_, e4, k4) =
        bind_ok (ensure (leb next (length f)) (Fault.invalid truncated_block)) _ k3 in
      let (_, e5, k5) =
        bind_ok (ensure (leb clen max_segment_block_bytes) (Fault.invalid compressed_too_large)) _
          k4 in
      let (_, e6, k6) =
        bind_ok
          (ensure (leb (le_at 4 f (pos + 12)) max_segment_block_bytes)
            (Fault.invalid uncompressed_too_large))
          _ k5 in
      let (_, e7, k7) =
        bind_ok
          (ensure (crc (take clen (drop (pos + block_header_len) f)) == le_at 4 f (pos + 4))
            (Fault.invalid crc_mismatch))
          _ k6 in
      let (block, e8, k8) =
        bind_ok
          (decompressed
            (decompress (take clen (drop (pos + block_header_len) f)) (le_at 4 f (pos + 12))))
          _ k7 in
      let (_, e9, k9) =
        bind_ok (ensure (length block == le_at 4 f (pos + 12)) (Fault.invalid length_mismatch)) _
          k8 in
      let (got, e10, k10) = bind_ok (decode_kind (kind_of (le_at 4 f pos)) block strict) _ k9 in
      let fits : leb next (length f) ≡ true =
        ensure-true (leb next (length f)) (Fault.invalid truncated_block) e4 in
      let out : next ≡ b.next_off = cc k10 in (sym out, ground (arith, fits, out))

  pub read_block-take :
      (f : Bytes) (pos : ℕ) (strict : Bool) (m : ℕ)
      → pos + block_header_len + le_at 4 f (pos + 8) ≤ m
      → m ≤ length f
      → read_block crc decompress (take m f) pos strict ≡ read_block crc decompress f pos strict
  unfolding read_block
  read_block-take f pos strict m h fits =
      let len = length-take m f fits in
      let l0 = le_at-take 4 f pos m (omega (arith, h)) in
      let l4 = le_at-take 4 f (pos + 4) m (omega (arith, h)) in
      let l8 = le_at-take 4 f (pos + 8) m (omega (arith, h)) in
      let l12 = le_at-take 4 f (pos + 12) m (omega (arith, h)) in
      let body = window-take (le_at 4 f (pos + 8)) (pos + block_header_len) m f h in
      let c1 : leb (pos + block_header_len) m ≡ true = ground (arith, h) in
      let c1' : leb (pos + block_header_len) (length f) ≡ true = ground (arith, h, fits) in
      let c2 : leb (pos + block_header_len + le_at 4 f (pos + 8)) m ≡ true = ground (arith, h) in
      let c2' : leb (pos + block_header_len + le_at 4 f (pos + 8)) (length f) ≡ true =
        ground (arith, h, fits) in
      simp (l0, l4, l8, l12, body, len, c1, c1', c2, c2') refl

  pub strict_read :
      (f : Bytes) (pos : ℕ) (b : SegmentBlock)
      → read_segment_block crc decompress f pos true ≡ ok (some b)
      → read_block crc decompress f pos true ≡ ok b
  unfolding read_segment_block
  strict_read f pos b e = of (read_block crc decompress f pos true) e
    where
      of : (r : Result Fault SegmentBlock) → invalid_block true r ≡ ok (some b) → r ≡ ok b
      of (ok a) h = cc
      of (err (Fault.invalid x)) h = cc
      of (err (Fault.hard x)) h = cc
