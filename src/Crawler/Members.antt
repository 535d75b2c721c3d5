-- ===== src/Crawler/Members.antt =====
-- Who has a task in the queue, and who becomes a member of the cohort.
use lol_crawler.Prelude.{
  ℕ, ◌≡◌, ◌⊎◌, refl, sym, ap, ◌∙◌, inl, inr, Bool, true, false, Bool-cases, Option, some, List, [],
  ◌∷◌, length, ◌==◌, if◌then◌else◌, arith,
}
use lol_crawler.Prelude.Maps.{String, find}
use lol_crawler.Prelude.Maps.Lookup.{find-insert}
use lol_crawler.Store.{contains, Store, add_rank_snapshot}
use lol_crawler.Store.Cohort.{is_there, is_cohort, not_members, enrol, enrol_all}
use lol_crawler.Frontier.{
  bucket_priority, FrontierTask, Frontier, frontier_push, frontier_push_batch,
}
use lol_crawler.Frontier.Agrees.{slot_of, IsFrontier, frontier_push-IsFrontier}
use lol_crawler.Frontier.Runs.{slot_of-frontier_push}
use lol_crawler.Crawler.{Entries, add_snapshots, fresh_task, fresh_tasks, queue_adopted}

-- The table of tasks has a row of the player.
abbrev pub is_queued : ℕ → Frontier → Bool
is_queued pid f = is_there (slot_of pid f.f)

pub there_if :
    {A : Type 0} (b : Bool) (a : A) (o : Option A)
    → (b ≡ true) ⊎ (is_there o ≡ true)
    → is_there (if b then some a else o) ≡ true
there_if true a o h = refl
there_if false a o (inl e) = cc
there_if false a o (inr e) = e

pub if_there :
    {A : Type 0} (b : Bool) (a : A) (o : Option A)
    → is_there (if b then some a else o) ≡ true
    → (b ≡ true) ⊎ (is_there o ≡ true)
if_there true a o h = inl refl
if_there false a o h = inr h

pub is_queued-push :
    (q : ℕ) (platform : String) (bucket due_ms p : ℕ) (task : FrontierTask) (f : Frontier)
    → IsFrontier f
    → ((q == p) ≡ true) ⊎ (is_queued q f ≡ true)
    → is_queued q (frontier_push platform bucket due_ms p task f) ≡ true
is_queued-push q platform bucket due_ms p task f tables h =
    ap is_there (slot_of-frontier_push q platform bucket due_ms p task f tables).0
    ∙ there_if (q == p) _ (slot_of q f.f) h

pub is_queued-batch :
    (q : ℕ) (platform : String) (bucket due_ms : ℕ) (pids : List ℕ) (puuids : List String)
    (f : Frontier)
    → IsFrontier f
    → length pids ≡ length puuids
    → (contains pids q ≡ true) ⊎ (is_queued q f ≡ true)
    → is_queued q (frontier_push_batch platform bucket due_ms (fresh_tasks pids puuids) f) ≡ true
unfolding frontier_push_batch
is_queued-batch q platform bucket due_ms [] [] f tables n (inl e) = cc
is_queued-batch q platform bucket due_ms [] [] f tables n (inr e) = e
is_queued-batch q platform bucket due_ms (pid ∷ pids) (puuid ∷ puuids) f tables n h =
    is_queued-batch q platform bucket due_ms pids puuids
      (frontier_push platform bucket due_ms pid (fresh_task puuid) f)
      (frontier_push-IsFrontier platform bucket due_ms pid (fresh_task puuid) f tables)
      (omega arith) (split h)
  where
    split :
        (contains (pid ∷ pids) q ≡ true) ⊎ (is_queued q f ≡ true)
        → (contains pids q ≡ true)
          ⊎ (is_queued q (frontier_push platform bucket due_ms pid (fresh_task puuid) f) ≡ true)
    split (inr e) =
        inr (is_queued-push q platform bucket due_ms pid (fresh_task puuid) f tables (inr e))
    split (inl e) = elim (Bool-cases (q == pid)) [
      | inl t ↦
          inr (is_queued-push q platform bucket due_ms pid (fresh_task puuid) f tables (inl t))
      | inr g ↦ inl (ground (arith, g, e))
    ]
is_queued-batch q platform bucket due_ms [] (puuid ∷ puuids) f tables n h = absurd (omega arith)
is_queued-batch q platform bucket due_ms (pid ∷ pids) [] f tables n h = absurd (omega arith)

pub is_queued-adopted :
    (q : ℕ) (platform : String) (now_ms : ℕ) (adopted : List (ℕ × String)) (f : Frontier)
    → IsFrontier f
    → (is_there (find ◌==◌ q adopted) ≡ true) ⊎ (is_queued q f ≡ true)
    → is_queued q (queue_adopted platform now_ms adopted f) ≡ true
is_queued-adopted q platform now_ms [] f tables (inl e) = cc
is_queued-adopted q platform now_ms [] f tables (inr e) = e
is_queued-adopted q platform now_ms ((pid, puuid) ∷ adopted) f tables h =
    is_queued-adopted q platform now_ms adopted
      (frontier_push platform bucket_priority now_ms pid (fresh_task puuid) f)
      (frontier_push-IsFrontier platform bucket_priority now_ms pid (fresh_task puuid) f tables)
      (split h)
  where
    split :
        (is_there (find ◌==◌ q ((pid, puuid) ∷ adopted)) ≡ true) ⊎ (is_queued q f ≡ true)
        → (is_there (find ◌==◌ q adopted) ≡ true)
          ⊎ (is_queued q (frontier_push platform bucket_priority now_ms pid (fresh_task puuid) f)
              ≡ true)
    split (inr e) =
        inr
          (is_queued-push q platform bucket_priority now_ms pid (fresh_task puuid) f tables (inr e))
    split (inl e) = elim (if_there (q == pid) puuid (find ◌==◌ q adopted) e) [
      | inl t ↦
          inr (
            is_queued-push q platform bucket_priority now_ms pid (fresh_task puuid) f tables
              (inl t))
      | inr g ↦ inl g
    ]

pub queue_adopted-IsFrontier :
    (platform : String) (now_ms : ℕ) (adopted : List (ℕ × String)) (f : Frontier)
    → IsFrontier f
    → IsFrontier (queue_adopted platform now_ms adopted f)
queue_adopted-IsFrontier platform now_ms [] f h = h
queue_adopted-IsFrontier platform now_ms ((pid, puuid) ∷ adopted) f h =
    queue_adopted-IsFrontier platform now_ms adopted
      (frontier_push platform bucket_priority now_ms pid (fresh_task puuid) f)
      (frontier_push-IsFrontier platform bucket_priority now_ms pid (fresh_task puuid) f h)

-- Who is a member afterwards was one before, or is among the new.
pub enrol_all-member :
    (q now_ms source : ℕ) (new : List ℕ) (s : Store)
    → is_cohort (enrol_all now_ms source new s) q ≡ true
    → (contains new q ≡ true) ⊎ (is_cohort s q ≡ true)
unfolding enrol_all
enrol_all-member q now_ms source [] s h = inr h
enrol_all-member q now_ms source (pid ∷ pids) s h =
    elim (enrol_all-member q now_ms source pids (enrol now_ms source pid s) h) [
      | inl e ↦ inl (ground (arith, e))
      | inr m ↦
          elim (if_there (q == pid) _ (find ◌==◌ q s.cohort)
            (ap is_there (sym (find-insert q pid (now_ms, source) s.cohort)) ∙ m)) [
              | inl t ↦ inl (ground (arith, t))
              | inr g ↦ inr g
            ]
    ]

pub not_members-contains :
    (q : ℕ) (s : Store) (pids : List ℕ)
    → contains (not_members s pids) q ≡ true
    → contains pids q ≡ true
unfolding not_members
not_members-contains q s [] h = h
not_members-contains q s (pid ∷ pids) h = elim (Bool-cases (is_cohort s pid)) [
  | inl t ↦
      let h' : contains (not_members s pids) q ≡ true = rw t at h in
      ground (arith, not_members-contains q s pids h')
  | inr f ↦
      let h' : contains (pid ∷ not_members s pids) q ≡ true = rw f at h in
      elim (Bool-cases (q == pid)) [
        | inl t ↦ ground (arith, t)
        | inr g ↦
            let h'' : contains (not_members s pids) q ≡ true = ground (arith, g, h') in
            ground (arith, not_members-contains q s pids h'')
      ]
]

pub add_snapshots-cohort :
    (ts : ℕ) (es : Entries) (pids : List ℕ) (s : Store)
    → (add_snapshots ts es pids s).cohort ≡ s.cohort
add_snapshots-cohort ts ((puuid, snap) ∷ es) (pid ∷ pids) s =
    add_snapshots-cohort ts es pids (add_rank_snapshot pid ts snap s)
add_snapshots-cohort ts [] pids s = refl
add_snapshots-cohort ts ((puuid, snap) ∷ es) [] s = refl
