-- ===== src/Frontier/Runs.antt =====
-- Any sequence of calls keeps the tables of the queue in agreement.
use lol_crawler.Prelude.{
  ℕ, ◌≡◌, ◌≢◌, refl, sym, subst, ap, ◌∙◌, inl, inr, Bool, true, false, Bool-cases, ◌&&◌, Option,
  none, some, List, [], ◌∷◌, leb, ◌==◌, ==_self, ==_iff, if◌then◌else◌, arith,
}
use lol_crawler.Prelude.Maps.{String, find, remove}
use lol_crawler.Prelude.Maps.Lookup.{find-insert}
use lol_crawler.Frontier.{
  deep_visit_ms, bucket_priority, FrontierTask, FrontierKey, Slot, Rows, slot_eq, slot, Frontier,
  push_over, frontier_push, frontier_push_batch, frontier_pop_due, cohort_rows, deepen, deepen_all,
  frontier_backfill_reset,
}
use lol_crawler.Frontier.Agrees.{
  slot_of, Once, key_of, IsFrontier, key-slot, key-slot_told, frontier_push-IsFrontier,
  replace-IsFrontier, slot_of-insert, removed-others, removed_self,
}
use lol_crawler.Frontier.Order.{priority, other, nothing, frontier_pop_due-Pops}

pub frontier_push_batch-IsFrontier :
    (platform : String) (bucket due_ms : ℕ) (items : List (ℕ × FrontierTask)) (s : Frontier)
    → IsFrontier s
    → IsFrontier (frontier_push_batch platform bucket due_ms items s)
unfolding frontier_push_batch
frontier_push_batch-IsFrontier platform bucket due_ms [] s h = h
frontier_push_batch-IsFrontier platform bucket due_ms ((p, task) ∷ items) s h =
    frontier_push_batch-IsFrontier platform bucket due_ms items
      (frontier_push platform bucket due_ms p task s)
      (frontier_push-IsFrontier platform bucket due_ms p task s h)

-- Each of the rows is its player's row in `f`.
abbrev pub AllStand : Rows → Rows → Type 0
AllStand f [] = Unit {0}
AllStand f ((k, task) ∷ rows) = (slot_of k.player_id f ≡ some k) × AllStand f rows

stand_behind :
    (j : Slot) (t : FrontierTask) (f rows : Rows)
    → slot_of j.player_id f ≡ none
    → AllStand f rows
    → AllStand ((j, t) ∷ f) rows
stand_behind j t f [] h a = tt
stand_behind j t f ((k, task) ∷ rows) h a = (
  elim (Bool-cases (k.player_id == j.player_id)) [
    | inl same ↦ ground (arith, same, h, a.0)
    | inr differ ↦ rw differ a.0
  ],
  stand_behind j t f rows h a.1,
)

stand_self : (f : Rows) → Once f → AllStand f f
stand_self [] o = tt
stand_self ((k, task) ∷ f) o =
    (rw (==_self k.player_id) refl, stand_behind k task f f o.0 (stand_self f o.1))

module _ (in_cohort : ℕ → Bool) where
  cohort_rows-none :
      (p : ℕ) (rows : Rows) → slot_of p rows ≡ none → slot_of p (cohort_rows in_cohort rows) ≡ none
  unfolding cohort_rows
  cohort_rows-none p [] h = refl
  cohort_rows-none p ((k, task) ∷ rows) h = ground (arith, h, cohort_rows-none p rows)

  cohort_rows-Once : (rows : Rows) → Once rows → Once (cohort_rows in_cohort rows)
  unfolding cohort_rows
  cohort_rows-Once [] o = tt
  cohort_rows-Once ((k, task) ∷ rows) o =
      elim (Bool-cases (k.bucket == bucket_priority && in_cohort k.player_id)) [
        | inl t ↦ rw t (cohort_rows-none k.player_id rows o.0, cohort_rows-Once rows o.1)
        | inr f ↦ rw f (cohort_rows-Once rows o.1)
      ]

  cohort_rows-AllStand : (f rows : Rows) → AllStand f rows → AllStand f (cohort_rows in_cohort rows)
  unfolding cohort_rows
  cohort_rows-AllStand f [] a = tt
  cohort_rows-AllStand f ((k, task) ∷ rows) a =
      elim (Bool-cases (k.bucket == bucket_priority && in_cohort k.player_id)) [
        | inl t ↦ rw t (a.0, cohort_rows-AllStand f rows a.1)
        | inr n ↦ rw n (cohort_rows-AllStand f rows a.1)
      ]

AllStand-deepen :
    (now_ms : ℕ) (k : Slot) (task : FrontierTask) (s : Frontier) (rows : Rows)
    → IsFrontier s
    → slot_of k.player_id s.f ≡ some k
    → slot_of k.player_id rows ≡ none
    → AllStand s.f rows
    → AllStand (deepen now_ms (k, task) s).f rows
AllStand-deepen now_ms k task s [] h here absent a = tt
AllStand-deepen now_ms k task s ((j, t) ∷ rows) h here absent a =
    let differ : j.player_id ≢ k.player_id = λ e. ground (arith, e, absent) in
    let test : (j.player_id == k.player_id) ≡ false = ground (arith, differ) in
    let gone : slot_of k.player_id (remove slot_eq k s.f) ≡ none = removed_self k s h here in
    (
      slot_of-insert j.player_id
            (slot (record { platform = k.platform; bucket = bucket_priority; due_ms = now_ms })
              k.player_id)
            (record { puuid = task.puuid; last_visit_ms = deep_visit_ms }) (remove slot_eq k s.f)
            gone
          ∙ rw test (removed-others k s h here j.player_id differ ∙ a.0),
      AllStand-deepen now_ms k task s rows h here (ground (arith, absent)) a.1,
    )

deepen_all-IsFrontier :
    (now_ms : ℕ) (rows : Rows) (s : Frontier)
    → Once rows
    → AllStand s.f rows
    → IsFrontier s
    → IsFrontier (deepen_all now_ms rows s)
unfolding deepen_all
deepen_all-IsFrontier now_ms [] s o a h = h
deepen_all-IsFrontier now_ms ((k, task) ∷ rows) s o a h =
    deepen_all-IsFrontier now_ms rows (deepen now_ms (k, task) s) o.1
      (AllStand-deepen now_ms k task s rows h a.0 o.0 a.1)
      (replace-IsFrontier k
        (record { platform = k.platform; bucket = bucket_priority; due_ms = now_ms })
        (record { puuid = task.puuid; last_visit_ms = deep_visit_ms }) s h a.0)

frontier_backfill_reset-IsFrontier :
    (in_cohort : ℕ → Bool) (now_ms : ℕ) (s : Frontier)
    → IsFrontier s
    → IsFrontier (frontier_backfill_reset in_cohort now_ms s).1
unfolding frontier_backfill_reset
frontier_backfill_reset-IsFrontier in_cohort now_ms s h =
    deepen_all-IsFrontier now_ms (cohort_rows in_cohort s.f) s
      (cohort_rows-Once in_cohort s.f h.once)
      (cohort_rows-AllStand in_cohort s.f s.f (stand_self s.f h.once)) h

frontier_pop_due-IsFrontier :
    (platform : String) (now_ms : ℕ) (s : Frontier)
    → IsFrontier s
    → IsFrontier (frontier_pop_due platform now_ms s).1
frontier_pop_due-IsFrontier platform now_ms s h = elim (frontier_pop_due-Pops platform now_ms s h) [
  | priority k task first e keeps ↦ keeps
  | other k task none_due first e keeps ↦ keeps
  | nothing a b e ↦ subst (λ (t : Option _ × Frontier). IsFrontier t.1) (sym e) h
]

-- The queues that the calls make of an empty one.
pub data Reachable : Frontier → Type 0 where
  empty : Reachable (record { f = []; idx = [] })
  push :
      (platform : String) (bucket due_ms p : ℕ) (task : FrontierTask) {s : Frontier}
      → Reachable s
      → Reachable (frontier_push platform bucket due_ms p task s)
  push_batch :
      (platform : String) (bucket due_ms : ℕ) (items : List (ℕ × FrontierTask)) {s : Frontier}
      → Reachable s
      → Reachable (frontier_push_batch platform bucket due_ms items s)
  pop :
      (platform : String) (now_ms : ℕ) {s : Frontier}
      → Reachable s
      → Reachable (frontier_pop_due platform now_ms s).1
  backfill :
      (in_cohort : ℕ → Bool) (now_ms : ℕ) {s : Frontier}
      → Reachable s
      → Reachable (frontier_backfill_reset in_cohort now_ms s).1

-- After any sequence of pushes, batches, pops and backfill resets on an empty queue, no player has
-- two tasks, and the index holds for each player the key of the player's task, or nothing where the
-- player has none.
pub Reachable-IsFrontier : {s : Frontier} → Reachable s → IsFrontier s
Reachable-IsFrontier empty = record { once = tt; agrees = λ q. refl }
Reachable-IsFrontier (push platform bucket due_ms p task r) =
    frontier_push-IsFrontier platform bucket due_ms p task _ (Reachable-IsFrontier r)
Reachable-IsFrontier (push_batch platform bucket due_ms items r) =
    frontier_push_batch-IsFrontier platform bucket due_ms items _ (Reachable-IsFrontier r)
Reachable-IsFrontier (pop platform now_ms r) =
    frontier_pop_due-IsFrontier platform now_ms _ (Reachable-IsFrontier r)
Reachable-IsFrontier (backfill in_cohort now_ms r) =
    frontier_backfill_reset-IsFrontier in_cohort now_ms _ (Reachable-IsFrontier r)

-- The key of the better bucket, the one that was there where they are equal.
abbrev pub better : Option FrontierKey → FrontierKey → FrontierKey
better none key = key
better (some ex) key = if leb ex.bucket key.bucket then ex else key

find-frontier_push :
    (q : ℕ) (platform : String) (bucket due_ms p : ℕ) (task : FrontierTask) (s : Frontier)
    → find ◌==◌ q (frontier_push platform bucket due_ms p task s).idx ≡ (
        if q == p
        then some (
            better
              (find ◌==◌ p s.idx)
              (record { platform = platform; bucket = bucket; due_ms = due_ms }))
        else find ◌==◌ q s.idx)
unfolding frontier_push
find-frontier_push q platform bucket due_ms p task s = by_found (find ◌==◌ p s.idx) refl
  where
    by_found :
        (o : Option FrontierKey)
        → find ◌==◌ p s.idx ≡ o
        → find ◌==◌ q
            (push_over
              (record { platform = platform; bucket = bucket; due_ms = due_ms })
              p
              task
              s
              o).idx
          ≡ (if q == p
              then some
                  (better o (record { platform = platform; bucket = bucket; due_ms = due_ms }))
              else find ◌==◌ q s.idx)
    by_found none e = find-insert q p _ s.idx
    by_found (some ex) e = elim (Bool-cases (leb ex.bucket bucket)) [
      | inl t ↦ rw t (ground (arith, e))
      | inr f ↦ rw f (find-insert q p _ s.idx)
    ]

-- Where the rows of the players are after a push.
pub slot_of-frontier_push :
    (q : ℕ) (platform : String) (bucket due_ms p : ℕ) (task : FrontierTask) (s : Frontier)
    → IsFrontier s
    → (slot_of q (frontier_push platform bucket due_ms p task s).f ≡ (
        if q == p
        then some (
            slot
              (better
                (key_of (slot_of p s.f))
                (record { platform = platform; bucket = bucket; due_ms = due_ms }))
              p)
        else slot_of q s.f))
      × IsFrontier (frontier_push platform bucket due_ms p task s)
slot_of-frontier_push q platform bucket due_ms p task s h =
    (by_test (q == p) refl, frontier_push-IsFrontier platform bucket due_ms p task s h)
  where
    key : FrontierKey
    key = record { platform = platform; bucket = bucket; due_ms = due_ms }

    s' : Frontier
    s' = frontier_push platform bucket due_ms p task s

    told :
        (b : Bool)
        → (q == p) ≡ b
        → key_of (slot_of q s'.f)
          ≡ (if b then some (better (find ◌==◌ p s.idx) key) else find ◌==◌ q s.idx)
    told b e =
        sym ((frontier_push-IsFrontier platform bucket due_ms p task s h).agrees q)
        ∙ find-frontier_push q platform bucket due_ms p task s
        ∙ ap (λ (t : Bool). if t then some (better (find ◌==◌ p s.idx) key) else find ◌==◌ q s.idx)
            e

    by_test :
        (b : Bool)
        → (q == p) ≡ b
        → slot_of q s'.f
          ≡ (if b then some (slot (better (key_of (slot_of p s.f)) key) p) else slot_of q s.f)
    by_test true e =
        key-slot q s'.f (better (find ◌==◌ p s.idx) key) (told true e)
        ∙ ap (λ n. some (slot (better (find ◌==◌ p s.idx) key) n)) ((==_iff q p).0 e)
        ∙ ap (λ o. some (slot (better o key) p)) (h.agrees p)
    by_test false e = key-slot_told q s'.f s.f (find ◌==◌ q s.idx) (told false e) (sym (h.agrees q))
