-- ===== src/Columnar/Streams/Writes.antt =====
-- The writers of Columnar/Cols append events to the streams.
use lol_crawler.Prelude.{
  ℕ, zero, suc, ◌-◌, ◌<◌, ◌≡◌, refl, sym, ap, ◌∙◌, inl, inr, List, [], ◌∷◌, ◌++◌, append_assoc,
  append-nil, ◌==◌, if◌then◌else◌, Bool-cases, arith, get_or, set, length, replicate, length-append,
  length-replicate,
}
use mathlib.Core.Path.{fun_ext}
use lol_crawler.Prelude.Int.{ℤ}
use lol_crawler.Columnar.Varint.{Bytes, varint}
use lol_crawler.Columnar.Varint.RoundTrip.{write_varint-varint}
use lol_crawler.Columnar.Delta.{zigzag_i64}
use lol_crawler.Columnar.Stream.{nmisc}
use lol_crawler.Columnar.Cols.{Cols, wv, wbytes, rune_v, stat_z}
use lol_crawler.Columnar.Streams.{
  Col, fixed, stat, rune, Event, content, content-append, v_event, bytes_event,
}

abbrev pub stream : Cols → Col → Bytes
stream cols (fixed i) = get_or cols.fixed i []
stream cols (stat i) = get_or cols.stat i []
stream cols (rune i) = get_or cols.rune i []

-- A writer keeps the fixed streams in number, and appends its events.
pub record Writes (write : Cols → Cols) (es : List Event) : Type 0 where
  pub size : (cols : Cols) → length cols.fixed ≡ nmisc → length (write cols).fixed ≡ nmisc
  pub run :
      (cols : Cols)
      → length cols.fixed ≡ nmisc
      → (c : Col) → stream (write cols) c ≡ stream cols c ++ content c es

length-set : (xs : List Bytes) (i : ℕ) (v : Bytes) → length (set xs i v) ≡ length xs
length-set [] i v = refl
length-set (x ∷ xs) zero v = refl
length-set (x ∷ xs) (suc i) v = ap suc (length-set xs i v)

get_or-set :
    (xs : List Bytes) (i j : ℕ) (v : Bytes)
    → i < length xs
    → get_or (set xs i v) j [] ≡ (if i == j then v else get_or xs j [])
get_or-set [] i j v h = absurd (omega arith)
get_or-set (x ∷ xs) zero zero v h = refl
get_or-set (x ∷ xs) zero (suc j) v h = ground arith
get_or-set (x ∷ xs) (suc i) zero v h = ground arith
get_or-set (x ∷ xs) (suc i) (suc j) v h = ground (arith, get_or-set xs i j v)

-- Growing adds empty streams only.
pub get_or-replicate : (n j : ℕ) → get_or {A = Bytes} (replicate n []) j [] ≡ []
get_or-replicate zero j = refl
get_or-replicate (suc n) zero = refl
get_or-replicate (suc n) (suc j) = get_or-replicate n j

get_or-grown : (xs : List Bytes) (n j : ℕ) → get_or (xs ++ replicate n []) j [] ≡ get_or xs j []
get_or-grown [] n j = get_or-replicate n j
get_or-grown (x ∷ xs) n zero = refl
get_or-grown (x ∷ xs) n (suc j) = get_or-grown xs n j

-- What one write adds to the stream at `j`.
at_index_run :
    (xs : List Bytes) (i j : ℕ) (b : Bytes)
    → i < length xs
    → get_or (set xs i (get_or xs i [] ++ b)) j []
      ≡ get_or xs j [] ++ (if i == j then b ++ [] else [])
at_index_run xs i j b h = get_or-set xs i j (get_or xs i [] ++ b) h ∙ elim (Bool-cases (i == j)) [
  | inl t ↦ let e : i ≡ j = ground arith in rw (t, e, append-nil)
  | inr f ↦ rw (f, append-nil)
]

fixed_run :
    (cols : Cols) (col : ℕ) (b : Bytes)
    → col < length cols.fixed
    → (c : Col)
    → stream (record cols { fixed = set cols.fixed col (get_or cols.fixed col [] ++ b) }) c
      ≡ stream cols c ++ content c ((fixed col, b) ∷ [])
fixed_run cols col b h (fixed j) = at_index_run cols.fixed col j b h
fixed_run cols col b h (stat j) = sym (append-nil _)
fixed_run cols col b h (rune j) = sym (append-nil _)

pub Writes-wbytes :
    (col : ℕ) (b : Bytes) → col < nmisc → Writes (wbytes col b) (bytes_event col b ∷ [])
unfolding wbytes
Writes-wbytes col b h = record {
  size = λ cols e. length-set cols.fixed col _ ∙ e;
  run = λ cols e. fixed_run cols col b (rw e h);
}

wv-wbytes : (col v : ℕ) (cols : Cols) → wv col v cols ≡ wbytes col (varint v) cols
unfolding wv wbytes
wv-wbytes col v cols = rw write_varint-varint

pub Writes-wv : (col v : ℕ) → col < nmisc → Writes (wv col v) (v_event col v ∷ [])
Writes-wv col v h = rw (fun_ext (wv-wbytes col v)) (Writes-wbytes col (varint v) h)

-- The column at `idx` of what `grow` leaves is there.
grown_length : (xs : List Bytes) (idx : ℕ) → idx < length (xs ++ replicate (suc idx - length xs) [])
grown_length xs idx = rw (length-append, length-replicate) (omega arith)

grown_run :
    (xs : List Bytes) (i j : ℕ) (b : Bytes)
    → let ys = xs ++ replicate (suc i - length xs) [] in
      get_or (set ys i (get_or ys i [] ++ b)) j []
      ≡ get_or xs j [] ++ (if i == j then b ++ [] else [])
grown_run xs i j b =
    let ys : List Bytes = xs ++ replicate (suc i - length xs) [] in
    at_index_run ys i j b (grown_length xs i)
    ∙ ap (λ t. t ++ (if i == j then b ++ [] else [])) (get_or-grown xs (suc i - length xs) j)

rune_run :
    (idx v : ℕ) (cols : Cols) (c : Col)
    → stream (rune_v idx v cols) c ≡ stream cols c ++ content c ((rune idx, varint v) ∷ [])
unfolding rune_v
rune_run idx v cols (fixed j) = sym (append-nil _)
rune_run idx v cols (stat j) = sym (append-nil _)
rune_run idx v cols (rune j) = rw write_varint-varint (grown_run cols.rune idx j (varint v))

pub Writes-rune : (idx v : ℕ) → Writes (rune_v idx v) ((rune idx, varint v) ∷ [])
Writes-rune idx v = record {
  size = λ cols e. unfold rune_v in e;
  run = λ cols e. rune_run idx v cols;
}

stat_run :
    (idx : ℕ) (v : ℤ) (cols : Cols) (c : Col)
    → stream (stat_z idx v cols) c
      ≡ stream cols c ++ content c ((stat idx, varint (zigzag_i64 v)) ∷ [])
unfolding stat_z
stat_run idx v cols (fixed j) = sym (append-nil _)
stat_run idx v cols (stat j) =
    rw write_varint-varint (grown_run cols.stat idx j (varint (zigzag_i64 v)))
stat_run idx v cols (rune j) = sym (append-nil _)

pub Writes-stat : (idx : ℕ) (v : ℤ) → Writes (stat_z idx v) ((stat idx, varint (zigzag_i64 v)) ∷ [])
Writes-stat idx v = record {
  size = λ cols e. unfold stat_z in e;
  run = λ cols e. stat_run idx v cols;
}

-- One writer after the other.
infixr 20 ◌⨾◌
pub ◌⨾◌ :
    {f g : Cols → Cols} {es fs : List Event}
    → Writes f es
    → Writes g fs
    → Writes (λ cols. g (f cols)) (es ++ fs)
◌⨾◌ {f} {g} {es} {fs} wf wg = record {
  size = λ cols e. wg.size (f cols) (wf.size cols e);
  run = λ cols e c.
      wg.run (f cols) (wf.size cols e) c ∙ simp (wf.run cols e c, content-append, append_assoc);
}

pub Writes-id : Writes (λ cols. cols) []
Writes-id = record { size = λ cols e. e; run = λ cols e c. sym (append-nil _) }
