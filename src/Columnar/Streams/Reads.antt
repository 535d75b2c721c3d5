-- ===== src/Columnar/Streams/Reads.antt =====
-- The readers of Columnar/Readers take events off the streams.
use lol_crawler.Prelude.{
  ℕ, ◌<◌, ◌≡◌, refl, sym, ◌∙◌, subst, All, List, [], ◌∷◌, ◌++◌, some, append_assoc, append-nil,
  ◌==◌, ==_self, if◌then◌else◌, get_elem?, length,
}
use lol_crawler.Prelude.Int.{ℤ, IsI64, IsU64}
use lol_crawler.Prelude.Result.{ok}
use lol_crawler.Columnar.Error.{
  Error, Try, index_out_of_bounds, missing_rune_column, missing_stat_column,
}
use lol_crawler.Columnar.Varint.{Bytes, varint}
use lol_crawler.Columnar.Varint.RoundTrip.{varint-ne-nil}
use lol_crawler.Columnar.Delta.{zigzag_i64}
use lol_crawler.Columnar.Delta.Laws.{unzigzag-zigzag, zigzag-IsU64}
use lol_crawler.Columnar.Stream.{nmisc}
use lol_crawler.Columnar.Readers.{
  ColReader, ColReaders, D, ◌>>=◌, pure, lift, reader_varint, reader_bytes, read_at, rv, rz, rbytes,
  stat_z, read_stat, rune_v,
}
use lol_crawler.Columnar.Streams.{
  Col, fixed, stat, rune, Event, content, content-append, v_event, z_event, bytes_event, Agree,
}
use lol_crawler.Columnar.Streams.Slots.{
  Fits, unread_at, slot_exists, slot_nonempty, Step, varint-Step, bytes-Step, slot-Step,
}

abbrev pub remaining : ColReaders → Col → Bytes
remaining rs (fixed i) = unread_at rs.fixed i
remaining rs (stat i) = unread_at rs.stat i
remaining rs (rune i) = unread_at rs.rune i

pub record Holds (rs : ColReaders) (es : List Event) : Type 0 where
  pub size : length rs.fixed ≡ nmisc
  pub fixed_fits : All Fits rs.fixed
  pub stat_fits : All Fits rs.stat
  pub rune_fits : All Fits rs.rune
  pub left : (c : Col) → remaining rs c ≡ content c es

-- Whatever follows them, the action takes these events and returns this value.
pub record Reads {A : Type 0} (m : D A) (es : List Event) (a : A) : Type 0 where
  pub run :
      (rs : ColReaders) (more : List Event)
      → Holds rs (es ++ more)
      → (rs' : ColReaders) × (m rs ≡ ok (a, rs')) × Holds rs' more

pub Reads-pure : {A : Type 0} (a : A) → Reads (pure a) [] a
unfolding pure
Reads-pure a = record { run = λ rs more h. (rs, refl, h) }

pub Reads-lift : {A : Type 0} (r : Try A) {a : A} → r ≡ ok a → Reads (lift r) [] a
unfolding lift
Reads-lift r e = record { run = λ rs more h. (rs, rw e, h) }

pub Reads-bind :
    {A B : Type 0} {m : D A} (f : A → D B) {es fs : List Event} {a : A} {b : B}
    → Reads m es a
    → Reads (f a) fs b
    → Reads (m >>= f) (es ++ fs) b
unfolding ◌>>=◌
Reads-bind f {es = es} {fs = fs} rm rf = record {
  run = λ rs more h.
      let h' : Holds rs (es ++ (fs ++ more)) = rw append_assoc at h in
      let (rs1, e1, h1) = rm.run rs (fs ++ more) h' in
      let (rs2, e2, h2) = rf.run rs1 more h1 in (rs2, rw e1 e2, h2);
}

-- The last bind of a block, before a step that reads nothing.
pub Reads-last :
    {A B : Type 0} {m : D A} (f : A → D B) {es : List Event} {a : A} {b : B}
    → Reads m es a
    → Reads (f a) [] b
    → Reads (m >>= f) es b
Reads-last {m = m} f {es = es} {b = b} rm rf =
    subst (λ t. Reads (m >>= f) t b) (append-nil es) (Reads-bind f rm rf)

-- Only the order within each stream matters.
pub Reads-Agree :
    {A : Type 0} {m : D A} {es fs : List Event} {a : A} → Agree es fs → Reads m es a → Reads m fs a
Reads-Agree {es = es} {fs = fs} agree r = record {
  run = λ rs more h. r.run rs more (record {
    size = h.size;
    fixed_fits = h.fixed_fits;
    stat_fits = h.stat_fits;
    rune_fits = h.rune_fits;
    left = λ c. h.left c ∙ simp (content-append, agree c);
  });
}

Step-rv :
    {A : Type 0} (rs : ColReaders) (i : ℕ) (missing : Error)
    (read : ColReader → Try (A × ColReader)) (b : Bytes) {a : A} (more : List Event)
    → Step read b a
    → i < nmisc
    → Holds rs ((fixed i, b) ∷ more)
    → (fixed' : List ColReader) × (read_at rs.fixed i missing read ≡ ok (a, fixed'))
      × Holds (record rs { fixed = fixed' }) more
Step-rv rs i missing read b more step within h =
    let (fixed', e, size, fits, left) =
      slot-Step rs.fixed i missing read b (λ j. content (fixed j) more) step
        (slot_exists rs.fixed i (rw h.size within)) h.fixed_fits (λ j. h.left (fixed j)) in
    (
      fixed',
      e,
      record {
        size = size ∙ h.size;
        fixed_fits = fits;
        stat_fits = h.stat_fits;
        rune_fits = h.rune_fits;
        left = elim [ fixed j ↦ left j | stat j ↦ h.left (stat j) | rune j ↦ h.left (rune j) ];
      },
    )

pub Reads-rv : (col v : ℕ) → col < nmisc → IsU64 v → Reads (rv col) (v_event col v ∷ []) v
unfolding rv
Reads-rv col v within h = record {
  run = λ rs more hs.
      let (fixed', e, hs') =
        Step-rv rs col index_out_of_bounds reader_varint (varint v) more (varint-Step v h) within
          hs in
      (record rs { fixed = fixed' }, rw e, hs');
}

pub Reads-rbytes :
    (col : ℕ) (b : Bytes) → col < nmisc → Reads (rbytes col (length b)) (bytes_event col b ∷ []) b
unfolding rbytes
Reads-rbytes col b within = record {
  run = λ rs more hs.
      let (fixed', e, hs') =
        Step-rv rs col index_out_of_bounds (reader_bytes (length b)) b more (bytes-Step b) within
          hs in
      (record rs { fixed = fixed' }, rw e, hs');
}

pub Reads-rz : (col : ℕ) (v : ℤ) → col < nmisc → IsI64 v → Reads (rz col) (z_event col v ∷ []) v
unfolding rz
Reads-rz col v within h =
    Reads-bind _ (Reads-rv col (zigzag_i64 v) within (zigzag-IsU64 v h))
      (rw (unzigzag-zigzag v h) (Reads-pure v))

-- A varint is never empty, so the stream that holds one is there.
slot_of_varint :
    (rs : List ColReader) (i v : ℕ) (rest : Bytes)
    → IsU64 v
    → unread_at rs i ≡ (if i == i then varint v ++ rest else rest)
    → (r : ColReader) × (get_elem? rs i ≡ some r)
slot_of_varint rs i v rest h e =
    slot_nonempty rs i (λ n. varint-ne-nil v rest h (sym (e ∙ rw ==_self) ∙ n))

pub Reads-rune : (idx v : ℕ) → IsU64 v → Reads (rune_v idx) ((rune idx, varint v) ∷ []) v
unfolding rune_v
Reads-rune idx v h = record {
  run = λ rs more hs.
      let (rune', e, size, fits, left) =
        slot-Step rs.rune idx missing_rune_column reader_varint (varint v)
          (λ j. content (rune j) more) (varint-Step v h)
          (slot_of_varint rs.rune idx v _ h (hs.left (rune idx))) hs.rune_fits
          (λ j. hs.left (rune j)) in
      (
        record rs { rune = rune' },
        rw e,
        record {
          size = hs.size;
          fixed_fits = hs.fixed_fits;
          stat_fits = hs.stat_fits;
          rune_fits = fits;
          left = elim [ fixed j ↦ hs.left (fixed j) | stat j ↦ hs.left (stat j) | rune j ↦ left j ];
        },
      );
}

Reads-read_stat : (idx v : ℕ) → IsU64 v → Reads (read_stat idx) ((stat idx, varint v) ∷ []) v
unfolding read_stat
Reads-read_stat idx v h = record {
  run = λ rs more hs.
      let (stat', e, size, fits, left) =
        slot-Step rs.stat idx missing_stat_column reader_varint (varint v)
          (λ j. content (stat j) more) (varint-Step v h)
          (slot_of_varint rs.stat idx v _ h (hs.left (stat idx))) hs.stat_fits
          (λ j. hs.left (stat j)) in
      (
        record rs { stat = stat' },
        rw e,
        record {
          size = hs.size;
          fixed_fits = hs.fixed_fits;
          stat_fits = fits;
          rune_fits = hs.rune_fits;
          left = elim [ fixed j ↦ hs.left (fixed j) | stat j ↦ left j | rune j ↦ hs.left (rune j) ];
        },
      );
}

pub Reads-stat :
    (idx : ℕ) (v : ℤ) → IsI64 v → Reads (stat_z idx) ((stat idx, varint (zigzag_i64 v)) ∷ []) v
unfolding stat_z
Reads-stat idx v h =
    Reads-bind _ (Reads-read_stat idx (zigzag_i64 v) (zigzag-IsU64 v h))
      (rw (unzigzag-zigzag v h) (Reads-pure v))
