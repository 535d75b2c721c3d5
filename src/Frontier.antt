-- ===== src/Frontier.antt =====
-- The crawl queue of crates/server/src/storage.rs (`frontier_push` and its neighbours): the table of
-- tasks by platform, bucket, due time and player, and the table of each player's key. redb's tables
-- are maps, a range is read from its least key on, and each call is one transaction.
pub mod Agrees
pub mod Order
pub mod Pushed
pub mod Runs
use lol_crawler.Prelude.{
  ℕ, zero, suc, ◌+◌, ◌-◌, Bool, true, false, ◌&&◌, ◌||◌, Option, none, some, List, [], ◌∷◌, ◌++◌,
  length, leb, ltb, ◌==◌, if◌then◌else◌,
}
use lol_crawler.Prelude.Maps.{String, str_eq, find, insert, remove}

abbrev pub deep_visit_ms : ℕ
deep_visit_ms = 1

abbrev pub bucket_priority : ℕ
bucket_priority = 0

abbrev pub bucket_other : ℕ
bucket_other = 1

pub record FrontierTask : Type 0 where
  pub puuid : String
  pub last_visit_ms : ℕ

pub record FrontierKey : Type 0 where
  pub platform : String
  pub bucket : ℕ
  pub due_ms : ℕ

-- The key of a task's row.
pub record Slot : Type 0 where
  pub platform : String
  pub bucket : ℕ
  pub due_ms : ℕ
  pub player_id : ℕ

abbrev pub Rows : Type 0
Rows = List (Slot × FrontierTask)

abbrev pub slot_eq : Slot → Slot → Bool
slot_eq a b =
    str_eq a.platform b.platform
    && (a.bucket == b.bucket && (a.due_ms == b.due_ms && a.player_id == b.player_id))

pub record Frontier : Type 0 where
  pub f : Rows
  pub idx : List (ℕ × FrontierKey)

abbrev pub slot : FrontierKey → ℕ → Slot
slot key player_id = record {
  platform = key.platform;
  bucket = key.bucket;
  due_ms = key.due_ms;
  player_id = player_id;
}

-- The row of a player who has none, and the key that finds it.
abbrev pub enqueue : FrontierKey → ℕ → FrontierTask → Frontier → Frontier
enqueue key player_id task s = record {
  f = insert slot_eq (slot key player_id) task s.f;
  idx = insert ◌==◌ player_id key s.idx;
}

abbrev pub push_over : FrontierKey → ℕ → FrontierTask → Frontier → Option FrontierKey → Frontier
push_over key player_id task s none = enqueue key player_id task s
push_over key player_id task s (some ex) =
    if leb ex.bucket key.bucket
    then s
    else enqueue key player_id task
        (record { f = remove slot_eq (slot ex player_id) s.f; idx = s.idx })

unfoldable pub frontier_push : String → ℕ → ℕ → ℕ → FrontierTask → Frontier → Frontier
frontier_push platform bucket due_ms player_id task s =
    push_over (record { platform = platform; bucket = bucket; due_ms = due_ms }) player_id task s
      (find ◌==◌ player_id s.idx)

unfoldable pub frontier_push_batch : String → ℕ → ℕ → List (ℕ × FrontierTask) → Frontier → Frontier
unfolding frontier_push
frontier_push_batch platform bucket due_ms [] s = s
frontier_push_batch platform bucket due_ms ((player_id, task) ∷ items) s =
    frontier_push_batch platform bucket due_ms items
      (frontier_push platform bucket due_ms player_id task s)

-- Whether a row is one of `(platform, bucket, 0, 0)..=(platform, bucket, until, u32::MAX)`.
abbrev pub in_range : String → ℕ → ℕ → Slot → Bool
in_range platform bucket until k =
    str_eq platform k.platform && (bucket == k.bucket && leb k.due_ms until)

abbrev pub before : Slot → Slot → Bool
before a b = ltb a.due_ms b.due_ms || (a.due_ms == b.due_ms && ltb a.player_id b.player_id)

-- `range.next()`.
abbrev pub least : Slot × FrontierTask → Option (Slot × FrontierTask) → Option (Slot × FrontierTask)
least row none = some row
least row (some best) = if before best.0 row.0 then some best else some row

unfoldable pub first_in : String → ℕ → ℕ → Rows → Option (Slot × FrontierTask)
first_in platform bucket until [] = none
first_in platform bucket until (row ∷ rows) =
    let rest = first_in platform bucket until rows in
    if in_range platform bucket until row.0 then least row rest else rest

pub record Popped : Type 0 where
  pub bucket : ℕ
  pub player_id : ℕ
  pub task : FrontierTask

abbrev pub take_row : Frontier → Slot × FrontierTask → Option Popped × Frontier
take_row s (k, task) = (
  some (record { bucket = k.bucket; player_id = k.player_id; task = task }),
  record { f = remove slot_eq k s.f; idx = remove ◌==◌ k.player_id s.idx },
)

abbrev pub or_later :
    Frontier
    → Option (Slot × FrontierTask)
    → Option (Slot × FrontierTask)
    → Option Popped × Frontier
or_later s (some row) other = take_row s row
or_later s none (some row) = take_row s row
or_later s none none = (none, s)

unfoldable pub frontier_pop_due : String → ℕ → Frontier → Option Popped × Frontier
unfolding first_in
frontier_pop_due platform now_ms s =
    or_later s (first_in platform bucket_priority now_ms s.f)
      (first_in platform bucket_other now_ms s.f)

-- How many rows are in the range.
unfoldable pub count_in : String → ℕ → ℕ → Rows → ℕ
count_in platform bucket until [] = 0
count_in platform bucket until (row ∷ rows) =
    let rest = count_in platform bucket until rows in
    if in_range platform bucket until row.0 then suc rest else rest

-- The loop counts a row before it looks at `cap`.
abbrev pub counted_to : ℕ → ℕ → ℕ
counted_to n zero = if ltb 0 n then 1 else 0
counted_to n (suc cap) = if leb n (suc cap) then n else suc cap

unfoldable pub frontier_overdue_count : String → ℕ → ℕ → ℕ → Frontier → ℕ
unfolding count_in
frontier_overdue_count platform now_ms grace_ms cap s =
    counted_to (count_in platform bucket_priority (now_ms - grace_ms) s.f) cap

abbrev pub u64_max : ℕ
u64_max = 18446744073709551615

abbrev pub sooner : Option (Slot × FrontierTask) → Option ℕ → Option ℕ
sooner none best = best
sooner (some row) none = some (row.0.due_ms)
sooner (some row) (some b) = if leb b row.0.due_ms then some b else some (row.0.due_ms)

unfoldable pub frontier_next_due : String → Frontier → Option ℕ
unfolding first_in
frontier_next_due platform s =
    sooner (first_in platform bucket_other u64_max s.f)
      (sooner (first_in platform bucket_priority u64_max s.f) none)

-- The rows of cohort members in the priority bucket.
unfoldable pub cohort_rows : (ℕ → Bool) → Rows → Rows
cohort_rows in_cohort [] = []
cohort_rows in_cohort (row ∷ rows) =
    let rest = cohort_rows in_cohort rows in
    if row.0.bucket == bucket_priority && in_cohort row.0.player_id then row ∷ rest else rest

abbrev pub deepen : ℕ → Slot × FrontierTask → Frontier → Frontier
deepen now_ms (k, task) s =
    enqueue (record { platform = k.platform; bucket = bucket_priority; due_ms = now_ms })
      k.player_id (record { puuid = task.puuid; last_visit_ms = deep_visit_ms })
      (record { f = remove slot_eq k s.f; idx = s.idx })

unfoldable pub deepen_all : ℕ → Rows → Frontier → Frontier
deepen_all now_ms [] s = s
deepen_all now_ms (row ∷ rows) s = deepen_all now_ms rows (deepen now_ms row s)

unfoldable pub frontier_backfill_reset : (ℕ → Bool) → ℕ → Frontier → ℕ × Frontier
unfolding cohort_rows deepen_all
frontier_backfill_reset in_cohort now_ms s =
    let entries = cohort_rows in_cohort s.f in (length entries, deepen_all now_ms entries s)
