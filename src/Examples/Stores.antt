-- ===== src/Examples/Stores.antt =====
-- The queue, the store and the crawler at concrete inputs.
use lol_crawler.Prelude.{
  ℕ, ◌-◌, ◌≡◌, refl, true, false, ◌&&◌, ◌||◌, Option, none, some, List, [], ◌∷◌, leb, ltb, ◌==◌,
  arith,
}
use lol_crawler.Prelude.Maps.{String}
use lol_crawler.Prelude.Result.{ok}
use lol_crawler.Segment.Writer.{Files}
use lol_crawler.Frontier.{
  bucket_priority, bucket_other, FrontierTask, Frontier, count_in, frontier_push,
  frontier_push_batch, frontier_pop_due, frontier_backfill_reset,
}
use lol_crawler.Frontier.Agrees.{IsFrontier, frontier_push-IsFrontier}
use lol_crawler.Frontier.Order.{Pops, frontier_pop_due-Pops}
use lol_crawler.Frontier.Runs.{Reachable, push, pop, push_batch, backfill, Reachable-IsFrontier}
use lol_crawler.Frontier.Runs
use lol_crawler.Frontier.Pushed.{row_of, new_row, better_row, row_of-frontier_push}
use lol_crawler.Store.{Store}
use lol_crawler.Store.Players.{
  assign_player_ids, IsNumbered, AllAssigned, Assigned, assign_player_ids-AllAssigned,
}
use lol_crawler.Store.History.Valid.{valid_count}
use lol_crawler.Store.Match.{store_tables, store_match}
use lol_crawler.Store.Match.Again.{Same, store_match-twice}
use lol_crawler.Store.History.Counted.{IsCounted}
use lol_crawler.Store.Match.Counted.{store_match-IsCounted}
use lol_crawler.Crawler.{Entries, Region, parsed, update_brake, Visit, finished, pass}
use lol_crawler.Crawler.Brake.{update_brake-hysteresis}
use lol_crawler.Crawler.Queued.{AllQueued}
use lol_crawler.Crawler.Pass.{nobody, pass-AllQueued}
use lol_crawler.Examples.Blocks.{match}
use lol_crawler.Examples.Segments.{crc, compress, encode_to_vec}

-- "E", the platform of the record.
abbrev euw : String
euw = 69 ∷ []

abbrev task : FrontierTask
task = record { puuid = 97 ∷ []; last_visit_ms = 0 }

abbrev three_tasks : Frontier
three_tasks =
    (frontier_backfill_reset (λ n. n == 9) 40
      (frontier_push_batch euw bucket_priority 50 ((8, task) ∷ ((9, task) ∷ []))
        (frontier_push euw bucket_other 10 7 task (record { f = []; idx = [] })))).1

three_tasks-Reachable : Reachable three_tasks
three_tasks-Reachable =
    backfill (λ n. n == 9) 40
      (push_batch euw bucket_priority 50 ((8, task) ∷ ((9, task) ∷ []))
        (push euw bucket_other 10 7 task Runs.empty))

Reachable-IsFrontier_example : IsFrontier (frontier_pop_due euw 45 three_tasks).1
Reachable-IsFrontier_example = Reachable-IsFrontier (pop euw 45 three_tasks-Reachable)

frontier_pop_due-Pops_example : Pops euw 45 three_tasks (frontier_pop_due euw 45 three_tasks)
frontier_pop_due-Pops_example =
    frontier_pop_due-Pops euw 45 three_tasks (Reachable-IsFrontier three_tasks-Reachable)

row_of-frontier_push_example :
    (row_of 7 (frontier_push euw bucket_priority 60 7 task three_tasks).f
      ≡ some (better_row (row_of 7 three_tasks.f) (new_row euw bucket_priority 60 7 task)))
    × IsFrontier (frontier_push euw bucket_priority 60 7 task three_tasks)
row_of-frontier_push_example =
    row_of-frontier_push 7 euw bucket_priority 60 7 task three_tasks
      (Reachable-IsFrontier three_tasks-Reachable)

abbrev new_store : Store
new_store = record {
  players = [];
  next_player_id = 1;
  seen = [];
  dirty_bitmaps = false;
  writers = [];
  pending_ranks = [];
  ranks = [];
  cohort = [];
  outsider_seen = [];
  tl = [];
  progress = [];
  valid_samples = [];
}

new-IsNumbered : IsNumbered new_store
new-IsNumbered = record { below = λ p id e. cc e; told = λ p q id e1 e2. cc e1 }

abbrev puuids : List String
puuids = (97 ∷ []) ∷ ((98 ∷ []) ∷ ((97 ∷ []) ∷ []))

assign_player_ids-AllAssigned_example :
    AllAssigned puuids (assign_player_ids puuids new_store).0 (assign_player_ids puuids new_store).1
    × Assigned new_store (assign_player_ids puuids new_store).1
assign_player_ids-AllAssigned_example =
    assign_player_ids-AllAssigned puuids new_store new-IsNumbered (omega arith)

-- The first and the third are one player.
abbrev ids_test : List ℕ
ids_test = (assign_player_ids puuids new_store).0

puuids_told : ids_test ≡ 1 ∷ (2 ∷ (1 ∷ []))
unfolding assign_player_ids
puuids_told = refl

abbrev day_files : String → Files
day_files platform = record { seg = []; idx = [] }

new-IsCounted : IsCounted new_store
unfolding valid_count
new-IsCounted = record { totals = λ q. refl; places = tt }

abbrev once : Store
once =
    (store_match crc compress encode_to_vec [] day_files match ((97 ∷ []) ∷ []) 1000 false
      new_store).0

store_match-twice_example :
    Same once
      (store_match crc compress encode_to_vec [] day_files match ((98 ∷ []) ∷ []) 2000 true once).0
    × ((store_tables match ((98 ∷ []) ∷ []) 2000 true once).1 ≡ [])
store_match-twice_example =
    store_match-twice crc compress encode_to_vec [] day_files match match ((97 ∷ []) ∷ [])
      ((98 ∷ []) ∷ []) 1000 2000 false true new_store refl refl

store_match-IsCounted_example : IsCounted once
store_match-IsCounted_example =
    store_match-IsCounted crc compress encode_to_vec [] day_files match ((97 ∷ []) ∷ []) 1000 false
      new_store (omega arith) new-IsCounted

-- A member of the cohort with a task, and nobody else.
abbrev region : Region
region = record {
  store = record new_store { cohort = (7, (5, 0)) ∷ [] };
  frontier = frontier_push euw bucket_priority 10 7 task (record { f = []; idx = [] });
  expand_cursor = 0;
  braked = false;
}

region-AllQueued : AllQueued nobody region.store region.frontier
unfolding frontier_push
region-AllQueued = record {
  tables =
      frontier_push-IsFrontier euw bucket_priority 10 7 task (record { f = []; idx = [] })
        (record { once = tt; agrees = λ q. refl });
  tasks = λ q m free. ground (arith, m);
}

abbrev visits : ℕ → Visit crc compress encode_to_vec [] day_files
visits pid = finished (((euw, 5), parsed match ((97 ∷ []) ∷ []) 1000 (ok tt)) ∷ []) 90

abbrev pages : ℕ → ℕ → Option Entries
pages band page = none

pass-AllQueued_example :
    AllQueued nobody
      (pass crc compress encode_to_vec [] day_files euw 20 visits pages region).store
      (pass crc compress encode_to_vec [] day_files euw 20 visits pages region).frontier
pass-AllQueued_example =
    pass-AllQueued crc compress encode_to_vec [] day_files (λ b. (b, refl)) euw 20 visits pages
      region (λ pid. (refl, tt)) region-AllQueued

update_brake-hysteresis_example : update_brake euw 20 region ≡ record region {
  braked =
      leb 500 (count_in euw bucket_priority (20 - 7200000) region.frontier.f)
      || (false && ltb 100 (count_in euw bucket_priority (20 - 7200000) region.frontier.f));
}
update_brake-hysteresis_example = update_brake-hysteresis euw 20 region
