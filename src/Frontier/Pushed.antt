-- ===== src/Frontier/Pushed.antt =====
-- What `frontier_push` of crates/server/src/storage.rs does to the rows of the players.
use lol_crawler.Prelude.{
  ℕ, ◌≡◌, ◌≢◌, refl, sym, ap, ◌∙◌, inl, inr, Bool, true, false, Bool-cases, Option, none, some, [],
  ◌∷◌, leb, ◌==◌, ==_iff, if◌then◌else◌, arith,
}
use lol_crawler.Prelude.Maps.{String, find, insert, remove}
use lol_crawler.Frontier.{
  FrontierTask, FrontierKey, Slot, Rows, slot_eq, slot, Frontier, push_over, frontier_push,
}
use lol_crawler.Frontier.Agrees.{
  slot_of, IsFrontier, slot_eq-player, no_slot, key-slot, removed_self, frontier_push-IsFrontier,
}

-- A player's row with its task.
abbrev pub row_of : ℕ → Rows → Option (Slot × FrontierTask)
row_of player_id [] = none
row_of player_id ((k, task) ∷ rows) =
    if player_id == k.player_id then some (k, task) else row_of player_id rows

abbrev pub new_row : String → ℕ → ℕ → ℕ → FrontierTask → Slot × FrontierTask
new_row platform bucket due_ms p task =
    (record { platform = platform; bucket = bucket; due_ms = due_ms; player_id = p }, task)

-- The row of the better bucket, the one that was there where they are equal.
abbrev pub better_row : Option (Slot × FrontierTask) → Slot × FrontierTask → Slot × FrontierTask
better_row none row = row
better_row (some old) row = if leb old.0.bucket row.0.bucket then old else row

row_of-insert :
    (q : ℕ) (k : Slot) (task : FrontierTask) (rows : Rows)
    → slot_of k.player_id rows ≡ none
    → row_of q (insert slot_eq k task rows)
      ≡ (if q == k.player_id then some (k, task) else row_of q rows)
row_of-insert q k task [] h = refl
row_of-insert q k task ((j, t) ∷ rows) h = elim (Bool-cases (slot_eq k j)) [
  | inl same ↦ let e = slot_eq-player k j same in ground (arith, e, h)
  | inr other ↦ rw other (ground (arith, h, row_of-insert q k task rows))
]

row_of-remove :
    (q : ℕ) (k : Slot) (rows : Rows)
    → q ≢ k.player_id
    → row_of q (remove slot_eq k rows) ≡ row_of q rows
row_of-remove q k [] h = refl
row_of-remove q k ((j, t) ∷ rows) h = elim (Bool-cases (slot_eq k j)) [
  | inl same ↦
      let e = slot_eq-player k j same in
      let rest = row_of-remove q k rows h in rw same (ground (arith, e, h, rest))
  | inr other ↦ rw other (ground (arith, row_of-remove q k rows h))
]

row_of-none : (p : ℕ) (rows : Rows) → slot_of p rows ≡ none → row_of p rows ≡ none
row_of-none p [] h = refl
row_of-none p ((k, task) ∷ rows) h = ground (arith, h, row_of-none p rows)

row_of-some :
    (p : ℕ) (rows : Rows) (k : Slot)
    → slot_of p rows ≡ some k
    → (task : FrontierTask) × (row_of p rows ≡ some (k, task))
row_of-some p [] k h = cc
row_of-some p ((j, task) ∷ rows) k h = elim (Bool-cases (p == j.player_id)) [
  | inl same ↦
      let e : some j ≡ some k = rw same at h in
      let e' : j ≡ k = cc e in (task, rw same (ap (λ s. some (s, task)) e'))
  | inr differ ↦
      let h' : slot_of p rows ≡ some k = rw differ at h in
      let (t, e) = row_of-some p rows k h' in (t, rw differ e)
]

-- A row that stands is what it is.
row_here :
    (q p : ℕ) (rows : Rows) (row : Slot × FrontierTask)
    → row_of p rows ≡ some row
    → row_of q rows ≡ (if q == p then some row else row_of q rows)
row_here q p rows row e = by_test (q == p) refl
  where
    by_test : (b : Bool) → (q == p) ≡ b → row_of q rows ≡ (if b then some row else row_of q rows)
    by_test true t = ap (λ n. row_of n rows) ((==_iff q p).0 t) ∙ e
    by_test false t = refl

-- While the tables agree, after a push its player has the new row, with the new task, where the
-- player had none or one of a worse bucket, and keeps the old row and task otherwise; every other
-- player has the row and the task as before; the tables still agree.
pub row_of-frontier_push :
    (q : ℕ) (platform : String) (bucket due_ms p : ℕ) (task : FrontierTask) (s : Frontier)
    → IsFrontier s
    → (row_of q (frontier_push platform bucket due_ms p task s).f ≡ (
        if q == p
        then some (better_row (row_of p s.f) (new_row platform bucket due_ms p task))
        else row_of q s.f))
      × IsFrontier (frontier_push platform bucket due_ms p task s)
unfolding frontier_push
row_of-frontier_push q platform bucket due_ms p task s h =
    (by_found (find ◌==◌ p s.idx) refl, frontier_push-IsFrontier platform bucket due_ms p task s h)
  where
    key : FrontierKey
    key = record { platform = platform; bucket = bucket; due_ms = due_ms }

    row : Slot × FrontierTask
    row = new_row platform bucket due_ms p task

    by_found :
        (o : Option FrontierKey)
        → find ◌==◌ p s.idx ≡ o
        → row_of q (push_over key p task s o).f
          ≡ (if q == p then some (better_row (row_of p s.f) row) else row_of q s.f)
    by_found none e =
        let absent : slot_of p s.f ≡ none = no_slot (slot_of p s.f) (sym (h.agrees p) ∙ e) in
        rw (row_of-none p s.f absent) (row_of-insert q (slot key p) task s.f absent)
    by_found (some ex) e =
        let here : slot_of p s.f ≡ some (slot ex p) = key-slot p s.f ex (sym (h.agrees p) ∙ e) in
        let (old, at) = row_of-some p s.f (slot ex p) here in
        elim (Bool-cases (leb ex.bucket bucket)) [
          | inl t ↦ rw (t, at) (rw t (row_here q p s.f (slot ex p, old) at))
          | inr f ↦
              rw (f, at)
                (rw f (
                  row_of-insert q (slot key p) task (remove slot_eq (slot ex p) s.f)
                    (removed_self (slot ex p) s h here)
                  ∙ others (q == p) refl))
        ]
      where
        others :
            (b : Bool)
            → (q == p) ≡ b
            → (if b then some row else row_of q (remove slot_eq (slot ex p) s.f))
              ≡ (if b then some row else row_of q s.f)
        others true t = refl
        others false t = row_of-remove q (slot ex p) s.f (λ same. ground (arith, t, same))
