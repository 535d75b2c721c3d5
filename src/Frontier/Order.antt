-- ===== src/Frontier/Order.antt =====
-- What a pop takes: the earliest due task of the best bucket that has one.
use lol_crawler.Prelude.{
  ℕ, ◌≡◌, ◌⊎◌, refl, ap, ◌∙◌, inl, inr, true, false, Bool-cases, Option, none, some, [], ◌∷◌, ◌==◌,
  ==_self, All, arith,
}
use lol_crawler.Prelude.Maps.{String}
use lol_crawler.Frontier.{
  FrontierTask, Slot, Rows, Frontier, bucket_priority, bucket_other, in_range, before, least,
  first_in, Popped, take_row, or_later, frontier_pop_due,
}
use lol_crawler.Frontier.Agrees.{slot_of, Once, IsFrontier, take_row-IsFrontier}

abbrev pub Has : Slot × FrontierTask → Rows → Type 0
Has row [] = ⊥
Has row (r ∷ rows) = (r ≡ row) ⊎ Has row rows

-- A row of the platform and the bucket that is due, and no such row comes before it.
pub record IsFirst (platform : String) (bucket until : ℕ) (rows : Rows) (row : Slot × FrontierTask)
    : Type 0 where
  pub has : Has row rows
  pub due : in_range platform bucket until row.0 ≡ true
  pub earliest :
      All
        (λ (x : Slot × FrontierTask).
          in_range platform bucket until x.0 ≡ true → before x.0 row.0 ≡ false)
        rows

abbrev pub FirstOrNone : String → ℕ → ℕ → Rows → Option (Slot × FrontierTask) → Type 0
FirstOrNone platform bucket until rows none =
    All (λ (x : Slot × FrontierTask). in_range platform bucket until x.0 ≡ false) rows
FirstOrNone platform bucket until rows (some row) = IsFirst platform bucket until rows row

module _ (platform : String) (bucket until : ℕ) where
  earliest-All :
      (P Q : Slot × FrontierTask → Type 0) (rows : Rows)
      → ((x : Slot × FrontierTask) → P x → Q x)
      → All P rows
      → All Q rows
  earliest-All P Q [] f h = tt
  earliest-All P Q (r ∷ rows) f h = (f r h.0, earliest-All P Q rows f h.1)

  before_self : (k : Slot) → before k k ≡ false
  before_self k = ground arith

  least-first :
      (row : Slot × FrontierTask) (rows : Rows) (o : Option (Slot × FrontierTask))
      → in_range platform bucket until row.0 ≡ true
      → FirstOrNone platform bucket until rows o
      → FirstOrNone platform bucket until (row ∷ rows) (least row o)
  least-first row rows none t h = record {
    has = inl refl;
    due = t;
    earliest = (λ _. before_self row.0, earliest-All _ _ rows (λ x off on. cc (off, on)) h);
  }
  least-first row rows (some best) t h = elim (Bool-cases (before best.0 row.0)) [
    | inl y ↦
        rw y
          (record { has = inr h.has; due = h.due; earliest = (λ _. ground (arith, y), h.earliest) })
    | inr n ↦ rw n (record {
      has = inl refl;
      due = t;
      earliest = (
        λ _. before_self row.0,
        earliest-All _ _ rows (λ x e on. ground (arith, n, e on)) h.earliest,
      );
    })
  ]

  pub first_in-first :
      (rows : Rows) → FirstOrNone platform bucket until rows (first_in platform bucket until rows)
  unfolding first_in
  first_in-first [] = tt
  first_in-first (row ∷ rows) = elim (Bool-cases (in_range platform bucket until row.0)) [
    | inl t ↦
        rw t (least-first row rows (first_in platform bucket until rows) t (first_in-first rows))
    | inr f ↦ rw f (skip (first_in platform bucket until rows) f (first_in-first rows))
  ]
    where
      skip :
          (o : Option (Slot × FrontierTask))
          → in_range platform bucket until row.0 ≡ false
          → FirstOrNone platform bucket until rows o
          → FirstOrNone platform bucket until (row ∷ rows) o
      skip none f h = (f, h)
      skip (some best) f h = record {
        has = inr h.has;
        due = h.due;
        earliest = (λ on. cc (f, on), h.earliest);
      }

-- The row of a player is the one that `slot_of` finds.
pub Has-slot_of :
    (k : Slot) (task : FrontierTask) (rows : Rows)
    → Once rows
    → Has (k, task) rows
    → slot_of k.player_id rows ≡ some k
Has-slot_of k task [] o h = absurd h
Has-slot_of k task ((j, t) ∷ rows) o (inl e) =
    let same : j ≡ k = ap (λ (r : Slot × FrontierTask). r.0) e in
    let test : (k.player_id == j.player_id) ≡ true =
      ap (λ (s : Slot). k.player_id == s.player_id) same ∙ ==_self k.player_id in
    rw test (ap some same)
Has-slot_of k task ((j, t) ∷ rows) o (inr h) = elim (Bool-cases (k.player_id == j.player_id)) [
  | inl same ↦ let rest = Has-slot_of k task rows o.1 h in ground (arith, same, rest, o.0)
  | inr differ ↦ rw differ (Has-slot_of k task rows o.1 h)
]

-- What a pop of `s` comes to.
pub data Pops (platform : String) (now_ms : ℕ) (s : Frontier) (got : Option Popped × Frontier)
    : Type 0 where
  priority :
      (k : Slot) (task : FrontierTask)
      → IsFirst platform bucket_priority now_ms s.f (k, task)
      → got ≡ take_row s (k, task)
      → IsFrontier got.1
      → Pops platform now_ms s got
  other :
      (k : Slot) (task : FrontierTask)
      → All (λ (x : Slot × FrontierTask). in_range platform bucket_priority now_ms x.0 ≡ false) s.f
      → IsFirst platform bucket_other now_ms s.f (k, task)
      → got ≡ take_row s (k, task)
      → IsFrontier got.1
      → Pops platform now_ms s got
  nothing :
      All (λ (x : Slot × FrontierTask). in_range platform bucket_priority now_ms x.0 ≡ false) s.f
      → All (λ (x : Slot × FrontierTask). in_range platform bucket_other now_ms x.0 ≡ false) s.f
      → got ≡ (none, s)
      → Pops platform now_ms s got

-- While the tables agree, a pop takes the first of the platform's due rows in the priority bucket;
-- where that has none, the first in the other bucket; where that has none either, it takes nothing
-- and leaves the queue as it was. The tables agree afterwards.
pub frontier_pop_due-Pops :
    (platform : String) (now_ms : ℕ) (s : Frontier)
    → IsFrontier s
    → Pops platform now_ms s (frontier_pop_due platform now_ms s)
unfolding frontier_pop_due
frontier_pop_due-Pops platform now_ms s h =
    by_first (first_in platform bucket_priority now_ms s.f)
      (first_in platform bucket_other now_ms s.f)
      (first_in-first platform bucket_priority now_ms s.f)
      (first_in-first platform bucket_other now_ms s.f)
  where
    by_first :
        (a b : Option (Slot × FrontierTask))
        → FirstOrNone platform bucket_priority now_ms s.f a
        → FirstOrNone platform bucket_other now_ms s.f b
        → Pops platform now_ms s (or_later s a b)
    by_first (some (k, task)) b fa fb =
        priority k task fa refl
          (take_row-IsFrontier s k task h (Has-slot_of k task s.f h.once fa.has))
    by_first none (some (k, task)) fa fb =
        other k task fa fb refl
          (take_row-IsFrontier s k task h (Has-slot_of k task s.f h.once fb.has))
    by_first none none fa fb = nothing fa fb refl
