-- ===== src/Segment/Writer/Opens.antt =====
-- Opening a day's files never fails, and rolling to a new day only where zstd does.
use lol_crawler.Prelude.{
  ℕ, zero, suc, ◌+◌, ◌<◌, ◌≤◌, ◌≡◌, refl, Bool, true, false, Option, none, some, List, [], ◌∷◌,
  length, leb, if◌then◌else◌, arith,
}
use lol_crawler.Prelude.Result.{Result, ok, err, ◌>>=◌}
use lol_crawler.Prelude.Maps.{String}
use lol_crawler.Columnar.Varint.{Bytes}
use lol_crawler.Segment.Little.{le_at}
use lol_crawler.Segment.Container.{
  block_header_len, known_segment_magic, validate_loop, validate_segment,
}
use lol_crawler.Segment.Writer.{
  Files, SegmentWriter, open_files, open_writer, flushed, flush_pending, flush, roll,
}

validate_loop-ok :
    (rounds : ℕ) (seg : Bytes) (pos : ℕ)
    → length seg < pos + rounds
    → pos ≤ length seg
    → (n : ℕ) × (validate_loop rounds seg pos ≡ ok n)
unfolding validate_loop
validate_loop-ok zero seg pos h within = absurd (omega arith)
validate_loop-ok (suc rounds) seg pos h within =
    let next : ℕ = pos + block_header_len + le_at 4 seg (pos + 8) in
    by_tests (leb (pos + block_header_len) (length seg)) (known_segment_magic (le_at 4 seg pos))
      (leb next (length seg)) refl (λ fits. validate_loop-ok rounds seg next (omega arith) fits)
  where
    by_tests :
        (a b c : Bool)
        → leb (pos + block_header_len + le_at 4 seg (pos + 8)) (length seg) ≡ c
        → (pos + block_header_len + le_at 4 seg (pos + 8) ≤ length seg
            → (n : ℕ) × (validate_loop rounds seg (pos + block_header_len + le_at 4 seg (pos + 8))
                ≡ ok n))
        → (n : ℕ) × ((if a
              then (if b
                  then (if c
                      then validate_loop rounds seg (pos + block_header_len + le_at 4 seg (pos + 8))
                      else ok pos)
                  else ok pos)
              else ok pos)
            ≡ ok n)
    by_tests false b c e rest = (pos, refl)
    by_tests true false c e rest = (pos, refl)
    by_tests true true false e rest = (pos, refl)
    by_tests true true true e rest = rest (ground (arith, e))

-- However a segment ends, the end of its last whole block is found.
pub validate_segment-ok : (seg : Bytes) → (n : ℕ) × (validate_segment seg ≡ ok n)
unfolding validate_segment
validate_segment-ok seg = validate_loop-ok (suc (length seg)) seg 0 (omega arith) (omega arith)

-- A chain goes on behind a step that succeeds.
then-ok :
    {E A B : Type 0} (m : Result E A) (f : A → Result E B)
    → (a : A) × (m ≡ ok a)
    → ((a : A) → (b : B) × (f a ≡ ok b))
    → (b : B) × ((m >>= f) ≡ ok b)
then-ok (ok a) f h k = k a
then-ok (err e) f (a, h) k = cc

pub open_files-ok : (day : Files) → (files : Files) × (open_files day ≡ ok files)
unfolding open_files
open_files-ok day =
    then-ok (validate_segment day.seg) _ (validate_segment-ok day.seg) (λ n. (_, refl))

pub open_writer-ok :
    (today : String) (day : Files) → (w : SegmentWriter) × (open_writer today day ≡ ok w)
unfolding open_writer
open_writer-ok today day = then-ok (open_files day) _ (open_files-ok day) (λ files. (_, refl))

module _ (crc : Bytes → ℕ) (compress : Bytes → Option Bytes)
    (packs : (b : Bytes) → (c : Bytes) × (compress b ≡ some c)) where
  flush-ok : (w : SegmentWriter) → (w' : SegmentWriter) × (flush crc compress w ≡ ok w')
  unfolding flush
  flush-ok w = by_pending w.pending
    where
      by_packed :
          (o : Option Bytes)
          → (c : Bytes) × (o ≡ some c)
          → (w' : SegmentWriter) × (flushed crc compress w o ≡ ok w')
      by_packed none (c, e) = cc
      by_packed (some c') (c, e) = (_, refl)

      by_pending :
          (ps : List (ℕ × ℕ)) → (w' : SegmentWriter) × (flush_pending crc compress w ps ≡ ok w')
      by_pending [] = (w, refl)
      by_pending (p ∷ ps) = by_packed (compress w.buf) (packs w.buf)

  pub roll-ok :
      (today : String) (day : Files) (w : SegmentWriter)
      → (r : Files × SegmentWriter) × (roll crc compress today day w ≡ ok r)
  unfolding roll
  roll-ok today day w =
      then-ok (flush crc compress w) _ (flush-ok w)
        (λ old. then-ok (open_files day) _ (open_files-ok day) (λ files. (_, refl)))
