-- ===== src/Columnar/RoundTrip/Start.antt =====
-- The readers of a payload, before the first record and behind the last.
use lol_crawler.Prelude.{
  ℕ, zero, suc, ◌+◌, ◌≡◌, refl, sym, ap, ◌∙◌, true, List, [], ◌∷◌, ◌++◌, map, length, take, drop,
  arith, length-append, length-drop, take_prefix, drop_prefix, drop-drop, All, get_or, ◌==◌,
}
use lol_crawler.Prelude.Int.{IsU64}
use lol_crawler.Prelude.Result.{ok}
use lol_crawler.Columnar.Varint.{Bytes}
use lol_crawler.Columnar.Stream.{nmisc}
use lol_crawler.Columnar.Cols.{Cols}
use lol_crawler.Columnar.Payload.{streams}
use lol_crawler.Columnar.Readers.{ColReader, ColReaders, reader, ensure_done, all_done}
use lol_crawler.Columnar.Readers
use lol_crawler.Columnar.Streams.{Col, fixed, stat, rune, Event, content}
use lol_crawler.Columnar.Streams.Writes.{stream}
use lol_crawler.Columnar.Streams.Reads.{Holds, remaining}
use lol_crawler.Columnar.Streams.Slots.{Fits, unread_at}

unread_at-reader : (xs : List Bytes) (i : ℕ) → unread_at (map reader xs) i ≡ get_or xs i []
unread_at-reader [] i = refl
unread_at-reader (x ∷ xs) zero = refl
unread_at-reader (x ∷ xs) (suc i) = unread_at-reader xs i

length-readers : (xs : List Bytes) → length (map reader xs) ≡ length xs
length-readers [] = refl
length-readers (x ∷ xs) = ap suc (length-readers xs)

Fits-readers : (xs : List Bytes) → All (λ x. IsU64 (length x)) xs → All Fits (map reader xs)
Fits-readers [] h = tt
Fits-readers (x ∷ xs) h = ((omega arith, h.0), Fits-readers xs h.1)

All-left :
    (xs ys : List Bytes) → All (λ x. IsU64 (length x)) (xs ++ ys) → All (λ x. IsU64 (length x)) xs
All-left [] ys h = tt
All-left (x ∷ xs) ys h = (h.0, All-left xs ys h.1)

All-right :
    (xs ys : List Bytes) → All (λ x. IsU64 (length x)) (xs ++ ys) → All (λ x. IsU64 (length x)) ys
All-right [] ys h = h
All-right (x ∷ xs) ys h = All-right xs ys h.1

abbrev pub first_readers : Cols → ColReaders
first_readers cols = record {
  fixed = map reader cols.fixed;
  stat = map reader cols.stat;
  rune = map reader cols.rune;
}

pub new-streams :
    (cols : Cols)
    → length cols.fixed ≡ nmisc
    → Readers.new (streams cols) (length cols.stat) (length cols.rune) ≡ ok (first_readers cols)
unfolding Readers.new
new-streams cols size =
    let behind : drop nmisc (streams cols) ≡ cols.stat ++ cols.rune =
      ap (λ n. drop n (streams cols)) (sym size) ∙ drop_prefix cols.fixed _ in
    let front : take nmisc (streams cols) ≡ cols.fixed =
      ap (λ n. take n (streams cols)) (sym size) ∙ take_prefix cols.fixed _ in
    let last : drop (nmisc + length cols.stat) (streams cols) ≡ cols.rune =
      sym (drop-drop nmisc (length cols.stat) (streams cols))
      ∙ ap (drop (length cols.stat)) behind
      ∙ drop_prefix cols.stat cols.rune in
    let count : (length (streams cols) == nmisc + length cols.stat + length cols.rune) ≡ true =
      ground (
        arith,
        length-append cols.fixed (cols.stat ++ cols.rune),
        length-append cols.stat cols.rune,
      ) in
    rw count (rw (front, last, behind) (rw (take_prefix cols.stat cols.rune) refl))

pub Holds-first :
    (cols : Cols) (es : List Event)
    → length cols.fixed ≡ nmisc
    → All (λ x. IsU64 (length x)) (streams cols)
    → ((c : Col) → stream cols c ≡ content c es)
    → Holds (first_readers cols) es
Holds-first cols es size fits each =
    let behind = All-right cols.fixed _ fits in
    record {
      size = length-readers cols.fixed ∙ size;
      fixed_fits = Fits-readers cols.fixed (All-left cols.fixed _ fits);
      stat_fits = Fits-readers cols.stat (All-left cols.stat cols.rune behind);
      rune_fits = Fits-readers cols.rune (All-right cols.stat cols.rune behind);
      left = λ c. same_stream c ∙ each c;
    }
  where
    same_stream : (c : Col) → remaining (first_readers cols) c ≡ stream cols c
    same_stream (fixed i) = unread_at-reader cols.fixed i
    same_stream (stat i) = unread_at-reader cols.stat i
    same_stream (rune i) = unread_at-reader cols.rune i

-- Readers with nothing unread are done.
done : (rs : List ColReader) → All Fits rs → ((i : ℕ) → unread_at rs i ≡ []) → all_done rs ≡ true
done [] h e = refl
done (r ∷ rs) h e =
    let left : length (drop r.pos r.bytes) ≡ 0 = ap length (e 0) in
    ground (arith, length-drop r.pos r.bytes, done rs h.1 (λ i. e (suc i)))

pub ensure_done-Holds : (rs : ColReaders) → Holds rs [] → ensure_done rs ≡ ok tt
unfolding ensure_done
ensure_done-Holds rs h =
    rw
      (
        done rs.fixed h.fixed_fits (λ i. h.left (fixed i)),
        done rs.stat h.stat_fits (λ i. h.left (stat i)),
        done rs.rune h.rune_fits (λ i. h.left (rune i)),
      )
      refl
