-- ===== src/Columnar/Readers.antt =====
-- `ColReader` and `ColReaders` of crates/server/src/columnar.rs, and the decoder's monad: a
-- function on the readers that returns a value and the readers behind it, or an error.
use lol_crawler.Prelude.{
  ℕ, ◌+◌, ◌^◌, Bool, true, Option, none, some, List, [], ◌∷◌, get_elem?, set, take, drop, length,
  map, leb, ltb, ◌==◌, ◌&&◌, if◌then◌else◌,
}
use lol_crawler.Prelude.Int.{ℤ}
use lol_crawler.Prelude.Result.{ok, err}
use lol_crawler.Columnar.Error.{
  Error, Try, index_out_of_bounds, length_overflow, truncated_bytes, missing_stat_column,
  missing_rune_column, unconsumed, column_count,
}
use lol_crawler.Columnar.Varint.{Bytes, read_varint_at}
use lol_crawler.Columnar.Delta.{unzigzag_i64}
use lol_crawler.Columnar.Stream.{nmisc}

pub record ColReader : Type 0 where
  pub bytes : Bytes
  pub pos : ℕ

pub record ColReaders : Type 0 where
  pub fixed : List ColReader
  pub stat : List ColReader
  pub rune : List ColReader

abbrev pub D : Type 0 → Type 0
D A = ColReaders → Try (A × ColReaders)

abbrev then_read : {A B : Type 0} → Try (A × ColReaders) → (A → D B) → Try (B × ColReaders)
then_read (ok (a, readers)) f = f a readers
then_read (err e) f = err e

infixl 5 ◌>>=◌ ◌>>◌
unfoldable pub ◌>>=◌ : {A B : Type 0} → D A → (A → D B) → D B
◌>>=◌ m f readers = then_read (m readers) f

abbrev pub ◌>>◌ : {B : Type 0} → D (Unit {0}) → D B → D B
m >> k = m >>= λ _. k

unfoldable pub pure : {A : Type 0} → A → D A
pure a readers = ok (a, readers)

-- A step that reads nothing.
abbrev with_readers : {A : Type 0} → Try A → ColReaders → Try (A × ColReaders)
with_readers (ok a) readers = ok (a, readers)
with_readers (err e) readers = err e

unfoldable pub lift : {A : Type 0} → Try A → D A
lift r readers = with_readers r readers

-- `ColReader::varint` and `ColReader::bytes`: the value and the reader behind it.
abbrev moved : ColReader → Try (ℕ × ℕ) → Try (ℕ × ColReader)
moved r (ok (v, pos')) = ok (v, record r { pos = pos' })
moved r (err e) = err e

unfoldable pub reader_varint : ColReader → Try (ℕ × ColReader)
reader_varint r = moved r (read_varint_at r.bytes r.pos)

unfoldable pub reader_bytes : ℕ → ColReader → Try (Bytes × ColReader)
reader_bytes len r =
    let end = r.pos + len in
    if ltb end (2 ^ 64)
    then (if leb end (length r.bytes)
        then ok (take len (drop r.pos r.bytes), record r { pos = end })
        else err truncated_bytes)
    else err length_overflow

-- A read through the reader at an index; the readers with that one moved.
abbrev put_back : {A : Type 0} → List ColReader → ℕ → Try (A × ColReader) → Try (A × List ColReader)
put_back readers i (ok (a, r)) = ok (a, set readers i r)
put_back readers i (err e) = err e

abbrev read_slot :
    {A : Type 0}
    → List ColReader
    → ℕ
    → Error
    → (ColReader → Try (A × ColReader))
    → Option ColReader
    → Try (A × List ColReader)
read_slot readers i missing read none = err missing
read_slot readers i missing read (some r) = put_back readers i (read r)

unfoldable pub read_at :
    {A : Type 0}
    → List ColReader
    → ℕ
    → Error
    → (ColReader → Try (A × ColReader))
    → Try (A × List ColReader)
read_at readers i missing read = read_slot readers i missing read (get_elem? readers i)

abbrev back_fixed : {A : Type 0} → ColReaders → Try (A × List ColReader) → Try (A × ColReaders)
back_fixed rs (ok (a, fixed)) = ok (a, record rs { fixed = fixed })
back_fixed rs (err e) = err e

abbrev back_stat : {A : Type 0} → ColReaders → Try (A × List ColReader) → Try (A × ColReaders)
back_stat rs (ok (a, stat)) = ok (a, record rs { stat = stat })
back_stat rs (err e) = err e

abbrev back_rune : {A : Type 0} → ColReaders → Try (A × List ColReader) → Try (A × ColReaders)
back_rune rs (ok (a, rune)) = ok (a, record rs { rune = rune })
back_rune rs (err e) = err e

-- An index into `fixed` is a constant below `NMISC`; out of bounds the source would panic.
unfoldable pub rv : ℕ → D ℕ
rv col rs = back_fixed rs (read_at rs.fixed col index_out_of_bounds reader_varint)

unfoldable pub rz : ℕ → D ℤ
rz col = do v ← rv col; pure (unzigzag_i64 v)

unfoldable pub rbytes : ℕ → ℕ → D Bytes
rbytes col len rs = back_fixed rs (read_at rs.fixed col index_out_of_bounds (reader_bytes len))

unfoldable pub read_stat : ℕ → D ℕ
read_stat idx rs = back_stat rs (read_at rs.stat idx missing_stat_column reader_varint)

unfoldable pub stat_z : ℕ → D ℤ
unfolding read_stat
stat_z idx = do v ← read_stat idx; pure (unzigzag_i64 v)

unfoldable pub rune_v : ℕ → D ℕ
rune_v idx rs = back_rune rs (read_at rs.rune idx missing_rune_column reader_varint)

abbrev pub reader : Bytes → ColReader
reader bytes = record { bytes = bytes; pos = 0 }

-- `ColReaders::new`.
unfoldable pub new : List Bytes → ℕ → ℕ → Try ColReaders
new columns stat_cols rune_cols =
    if length columns == nmisc + stat_cols + rune_cols
    then ok (record {
      fixed = map reader (take nmisc columns);
      stat = map reader (take stat_cols (drop nmisc columns));
      rune = map reader (drop (nmisc + stat_cols) columns);
    })
    else err column_count

abbrev pub all_done : List ColReader → Bool
all_done [] = true
all_done (r ∷ rs) = r.pos == length r.bytes && all_done rs

unfoldable pub ensure_done : ColReaders → Try (Unit {0})
ensure_done rs =
    if all_done rs.fixed && (all_done rs.stat && all_done rs.rune) then ok tt else err unconsumed
