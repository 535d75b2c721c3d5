-- ===== src/Columnar/Streams/Slots.antt =====
-- One reader among those of Columnar/Readers, and what a read through it leaves unread.
use lol_crawler.Prelude.{
  ℕ, zero, suc, ◌+◌, ◌≤◌, ◌<◌, ◌≡◌, ◌≢◌, refl, sym, ap, ◌∙◌, subst, All, inl, inr, List, [], ◌∷◌,
  ◌++◌, some, ◌==◌, ==_self, if◌then◌else◌, Bool-cases, arith, set, get_elem?, length, drop, take,
  take_prefix, drop_prefix, drop-drop, length-drop, length-append,
}
use lol_crawler.Prelude.Int.{IsU64}
use lol_crawler.Prelude.Result.{ok}
use lol_crawler.Columnar.Error.{Error, Try}
use lol_crawler.Columnar.Varint.{Bytes, varint}
use lol_crawler.Columnar.Varint.RoundTrip.{read_varint_at-varint}
use lol_crawler.Columnar.Readers.{ColReader, reader_varint, reader_bytes, read_at}

-- The bytes that a reader has not taken.
abbrev pub unread : ColReader → Bytes
unread r = drop r.pos r.bytes

-- The position is within the bytes, and those fit a usize.
abbrev pub Fits : ColReader → Type 0
Fits r = (r.pos ≤ length r.bytes) × IsU64 (length r.bytes)

abbrev pub unread_at : List ColReader → ℕ → Bytes
unread_at [] i = []
unread_at (r ∷ rs) zero = unread r
unread_at (r ∷ rs) (suc i) = unread_at rs i

-- One slot of a family of readers.
pub unread_at-get :
    (rs : List ColReader) (i : ℕ) (r : ColReader)
    → get_elem? rs i ≡ some r
    → unread_at rs i ≡ unread r
unread_at-get [] i r e = cc
unread_at-get (x ∷ rs) zero r e = ap unread {x = x} {y = r} (ground arith)
unread_at-get (x ∷ rs) (suc i) r e = unread_at-get rs i r e

pub unread_at-set :
    (rs : List ColReader) (i j : ℕ) (r r' : ColReader)
    → get_elem? rs i ≡ some r
    → unread_at (set rs i r') j ≡ (if i == j then unread r' else unread_at rs j)
unread_at-set [] i j r r' e = cc
unread_at-set (x ∷ rs) zero zero r r' e = refl
unread_at-set (x ∷ rs) zero (suc j) r r' e = ground arith
unread_at-set (x ∷ rs) (suc i) zero r r' e = ground arith
unread_at-set (x ∷ rs) (suc i) (suc j) r r' e = ground (arith, unread_at-set rs i j r r' e)

pub slot_exists :
    (rs : List ColReader) (i : ℕ) → i < length rs → (r : ColReader) × (get_elem? rs i ≡ some r)
slot_exists [] i h = absurd (omega arith)
slot_exists (r ∷ rs) zero h = (r, refl)
slot_exists (r ∷ rs) (suc i) h = slot_exists rs i (omega arith)

pub slot_nonempty :
    (rs : List ColReader) (i : ℕ)
    → unread_at rs i ≢ []
    → (r : ColReader) × (get_elem? rs i ≡ some r)
slot_nonempty [] i h = absurd (h refl)
slot_nonempty (r ∷ rs) zero h = (r, refl)
slot_nonempty (r ∷ rs) (suc i) h = slot_nonempty rs i h

pub length-set : (rs : List ColReader) (i : ℕ) (r : ColReader) → length (set rs i r) ≡ length rs
length-set [] i r = refl
length-set (x ∷ rs) zero r = refl
length-set (x ∷ rs) (suc i) r = ap suc (length-set rs i r)

pub All-set :
    (rs : List ColReader) (i : ℕ) (r : ColReader) → All Fits rs → Fits r → All Fits (set rs i r)
All-set [] i r h k = tt
All-set (x ∷ rs) zero r h k = (k, h.1)
All-set (x ∷ rs) (suc i) r h k = (h.0, All-set rs i r h.1 k)

pub All-get :
    (rs : List ColReader) (i : ℕ) (r : ColReader) → All Fits rs → get_elem? rs i ≡ some r → Fits r
All-get [] i r h e = cc
All-get (x ∷ rs) zero r h e = subst Fits {x = x} {y = r} (ground arith) h.0
All-get (x ∷ rs) (suc i) r h e = All-get rs i r h.1 e

-- What the two reads of a single reader do.
abbrev pub Step : {A : Type 0} → (ColReader → Try (A × ColReader)) → Bytes → A → Type 0
Step {A} read b a =
    (r : ColReader) (rest : Bytes)
    → Fits r
    → unread r ≡ b ++ rest
    → (r' : ColReader) × (read r ≡ ok (a, r')) × (unread r' ≡ rest) × Fits r'

pub varint-Step : (v : ℕ) → IsU64 v → Step reader_varint (varint v) v
unfolding reader_varint
varint-Step v h r rest fits e =
    let (pos', e', d, within) = read_varint_at-varint v r.bytes r.pos rest h e in
    (record r { pos = pos' }, rw e', d, (within, fits.1))

pub bytes-Step : (b : Bytes) → Step (reader_bytes (length b)) b b
unfolding reader_bytes
bytes-Step b r rest fits e =
    let size : r.pos + length b ≤ length r.bytes =
      omega (arith, length-drop r.pos r.bytes, ap length e, length-append b rest) in
    (
      record r { pos = r.pos + length b },
      ground (arith, taken),
      sym (drop-drop r.pos (length b) r.bytes) ∙ ap (drop (length b)) e ∙ drop_prefix b rest,
      (size, fits.1),
    )
  where
    taken : take (length b) (drop r.pos r.bytes) ≡ b
    taken = ap (take (length b)) e ∙ take_prefix b rest

pub slot_left :
    (rs : List ColReader) (i : ℕ) (r r' : ColReader) (b : Bytes) (left : ℕ → Bytes)
    → get_elem? rs i ≡ some r
    → unread r' ≡ left i
    → ((j : ℕ) → unread_at rs j ≡ (if i == j then b ++ left j else left j))
    → (j : ℕ) → unread_at (set rs i r') j ≡ left j
slot_left rs i r r' b left g u h j = unread_at-set rs i j r r' g ∙ elim (Bool-cases (i == j)) [
  | inl t ↦ let e : i ≡ j = ground arith in rw t (u ∙ ap left e)
  | inr f ↦ rw f (h j ∙ rw f)
]

-- A step through a slot: the slot's stream loses `b`, and the others stay.
pub slot-Step :
    {A : Type 0} (rs : List ColReader) (i : ℕ) (missing : Error)
    (read : ColReader → Try (A × ColReader)) (b : Bytes) {a : A} (left : ℕ → Bytes)
    → Step read b a
    → (r : ColReader) × (get_elem? rs i ≡ some r)
    → All Fits rs
    → ((j : ℕ) → unread_at rs j ≡ (if i == j then b ++ left j else left j))
    → (rs' : List ColReader) × (read_at rs i missing read ≡ ok (a, rs'))
      × (length rs' ≡ length rs)
      × All Fits rs'
      × ((j : ℕ) → unread_at rs' j ≡ left j)
unfolding read_at
slot-Step rs i missing read b left step (r, g) fits h =
    let here : unread r ≡ b ++ left i = sym (unread_at-get rs i r g) ∙ h i ∙ rw ==_self in
    let (r', e, u, fits') = step r (left i) (All-get rs i r fits g) here in
    (
      set rs i r',
      rw (g, e),
      length-set rs i r',
      All-set rs i r' fits fits',
      slot_left rs i r r' b left g u h,
    )
