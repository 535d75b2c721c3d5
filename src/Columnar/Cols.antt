-- ===== src/Columnar/Cols.antt =====
-- The column streams of crates/server/src/columnar.rs, and the writers that append to them.
-- A writer is a function on `Cols`, and `cols ▷ f ▷ g` calls them in turn.
use lol_crawler.Prelude.{ℕ, suc, ◌-◌, List, [], ◌++◌, get_or, set, replicate, length}
use lol_crawler.Prelude.Int.{ℤ}
use lol_crawler.Columnar.Varint.{Bytes, write_varint}
use lol_crawler.Columnar.Delta.{zigzag_i64}
use lol_crawler.Columnar.Stream.{nmisc}

pub record Cols : Type 0 where
  pub fixed : List Bytes
  pub stat : List Bytes
  pub rune : List Bytes

-- `Cols::new`.
abbrev pub new : Cols
new = record { fixed = replicate nmisc []; stat = []; rune = [] }

infixl 20 ◌▷◌
abbrev pub ◌▷◌ : Cols → (Cols → Cols) → Cols
cols ▷ f = f cols

-- A write through `&mut columns[i]`.
abbrev at_index : List Bytes → ℕ → (Bytes → Bytes) → List Bytes
at_index columns i write = set columns i (write (get_or columns i []))

unfoldable pub wv : ℕ → ℕ → Cols → Cols
wv col v cols = record cols { fixed = at_index cols.fixed col (λ out. write_varint out v) }

abbrev pub wz : ℕ → ℤ → Cols → Cols
wz col v = wv col (zigzag_i64 v)

unfoldable pub wbytes : ℕ → Bytes → Cols → Cols
wbytes col bytes cols = record cols { fixed = at_index cols.fixed col (λ out. out ++ bytes) }

-- `while columns.len() <= idx` an empty column is pushed.
abbrev grow : ℕ → List Bytes → List Bytes
grow idx columns = columns ++ replicate (suc idx - length columns) []

unfoldable pub rune_v : ℕ → ℕ → Cols → Cols
rune_v idx v cols = record cols {
  rune = at_index (grow idx cols.rune) idx (λ out. write_varint out v);
}

unfoldable pub stat_z : ℕ → ℤ → Cols → Cols
stat_z idx v cols = record cols {
  stat = at_index (grow idx cols.stat) idx (λ out. write_varint out (zigzag_i64 v));
}
