-- ===== src/Columnar/Streams.antt =====
-- What a block's streams hold, as a list of events: one for each write, with the stream that it
-- goes to. The writers append the events; the readers take them off the front, in any order that
-- agrees stream by stream.
pub mod Writes
pub mod Slots
pub mod Reads
use lol_crawler.Prelude.{
  ℕ, ◌+◌, ◌≡◌, ◌≢◌, append-nil, refl, sym, ap, ◌∙◌, inl, inr, Bool, true, false, List, [], ◌∷◌,
  ◌++◌, Option, none, some, append_assoc, ◌==◌, if◌then◌else◌, Bool-cases, All, arith,
}
use lol_crawler.Prelude.Int.{ℤ}
use lol_crawler.Columnar.Varint.{Bytes, varint}
use lol_crawler.Columnar.Delta.{zigzag_i64}

-- A stream: a fixed one, a stat column or a rune column.
pub data Col : Type 0 where
  fixed stat rune : ℕ → Col

abbrev pub same : Col → Col → Bool
same (fixed i) (fixed j) = i == j
same (stat i) (stat j) = i == j
same (rune i) (rune j) = i == j
same c d = false

abbrev pub Event : Type 0
Event = Col × Bytes

-- The bytes that a list of events puts in one stream.
abbrev pub content : Col → List Event → Bytes
content c [] = []
content c ((d, b) ∷ es) = if same d c then b ++ content c es else content c es

pub content-append :
    (c : Col) (es fs : List Event) → content c (es ++ fs) ≡ content c es ++ content c fs
content-append c [] fs = refl
content-append c ((d, b) ∷ es) fs =
    ground (arith, content-append c es fs, append_assoc b (content c es) (content c fs))

-- A varint, a signed varint and raw bytes in a fixed stream.
abbrev pub v_event : ℕ → ℕ → Event
v_event col v = (fixed col, varint v)

abbrev pub z_event : ℕ → ℤ → Event
z_event col v = v_event col (zigzag_i64 v)

abbrev pub bytes_event : ℕ → Bytes → Event
bytes_event col bs = (fixed col, bs)

-- Two lists of events that put the same bytes in every stream.
abbrev pub Agree : List Event → List Event → Type 0
Agree es fs = (c : Col) → content c es ≡ content c fs

-- Events of streams on two sides of a test commute.
module _ (side : Col → Bool) where
  abbrev pub On : Bool → List Event → Type 0
  On b = All λ e. side e.0 ≡ b

  same→eq : (c d : Col) → same c d ≡ true → side c ≡ side d
  same→eq (fixed i) (fixed j) h = let e : i ≡ j = ground arith in ap (λ k. side (fixed k)) e
  same→eq (stat i) (stat j) h = let e : i ≡ j = ground arith in ap (λ k. side (stat k)) e
  same→eq (rune i) (rune j) h = let e : i ≡ j = ground arith in ap (λ k. side (rune k)) e
  same→eq _ _ h = cc

  content-off : (c : Col) (b : Bool) (es : List Event) → On b es → side c ≢ b → content c es ≡ []
  content-off c b [] h off = refl
  content-off c b ((d, bs) ∷ es) h off = ground (arith, same→eq d c, content-off c b es h.1)

  pub Agree-swap : (es fs : List Event) → On true es → On false fs → Agree (es ++ fs) (fs ++ es)
  Agree-swap es fs h k c = elim (Bool-cases (side c)) [
    | inl t ↦ simp (content-append, content-off c false fs k (λ e. cc), append-nil)
    | inr f ↦ simp (content-append, content-off c true es h (λ e. cc), append-nil)
  ]
