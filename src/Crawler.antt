-- ===== src/Crawler.antt =====
-- The region crawler of crates/server/src/crawler.rs: what a pass does to the store, the queue, the
-- cursors and the brake. The answers of the Riot API, the clock and the day's delay that is computed
-- in floating point are arguments; no other task takes the store's lock in the middle of a call.
pub mod Brake
pub mod Members
pub mod Queued
pub mod Pass
use lol_crawler.Prelude.{
  ℕ, suc, ◌+◌, ◌-◌, ◌*◌, ◌/◌, ◌%◌, Bool, true, false, not, ◌&&◌, ◌||◌, Option, none, some, List, [],
  ◌∷◌, length, get_elem?, leb, ltb, ◌==◌, if◌then◌else◌,
}
use lol_crawler.Prelude.Result.{Result, ok, err}
use lol_crawler.Prelude.Maps.{String, str_eq, find, insert}
use lol_crawler.Columnar.Varint.{Bytes}
use lol_crawler.Record.{MatchRecord}
use lol_crawler.Segment.Error.{Try}
use lol_crawler.Segment.Writer.{Files}
use lol_crawler.Store.{Store, mark_seen, add_rank_snapshot}
use lol_crawler.Store.Players.{assign_player_ids}
use lol_crawler.Store.Cohort.{is_cohort, cohort_add_batch}
use lol_crawler.Store.Match.{store_match}
use lol_crawler.Frontier.{
  bucket_priority, deep_visit_ms, FrontierTask, Frontier, Popped, frontier_push,
  frontier_push_batch, frontier_pop_due, frontier_overdue_count,
}

abbrev pub brake_on_count : ℕ
brake_on_count = 500

abbrev pub brake_off_count : ℕ
brake_off_count = 100

abbrev pub brake_overdue_grace_ms : ℕ
brake_overdue_grace_ms = 7200000

abbrev pub cohort_src_ladder : ℕ
cohort_src_ladder = 2

abbrev pub queue_id : ℕ
queue_id = 420

abbrev pub raw_sample_permille : ℕ
raw_sample_permille = 10

pub record Region : Type 0 where
  pub store : Store
  pub frontier : Frontier
  pub expand_cursor : ℕ
  pub braked : Bool

abbrev pub brake_after : Bool → ℕ → Bool
brake_after braked overdue =
    if not braked && leb brake_on_count overdue
    then true
    else if braked && leb overdue brake_off_count
    then false
    else braked

unfoldable pub update_brake : String → ℕ → Region → Region
update_brake platform now_ms r = record r {
  braked = brake_after r.braked (
      frontier_overdue_count platform now_ms brake_overdue_grace_ms (brake_on_count * 2)
        r.frontier);
}

-- A league entry: the puuid and the encoded snapshot.
abbrev pub Entries : Type 0
Entries = List (String × Bytes)

abbrev pub puuids_of : Entries → List String
puuids_of [] = []
puuids_of ((puuid, snap) ∷ es) = puuid ∷ puuids_of es

abbrev pub add_snapshots : ℕ → Entries → List ℕ → Store → Store
add_snapshots ts ((puuid, snap) ∷ es) (pid ∷ pids) s =
    add_snapshots ts es pids (add_rank_snapshot pid ts snap s)
add_snapshots ts _ _ s = s

abbrev pub fresh_task : String → FrontierTask
fresh_task puuid = record { puuid = puuid; last_visit_ms = 0 }

abbrev pub fresh_tasks : List ℕ → List String → List (ℕ × FrontierTask)
fresh_tasks (pid ∷ pids) (puuid ∷ puuids) = (pid, fresh_task puuid) ∷ fresh_tasks pids puuids
fresh_tasks _ _ = []

unfoldable pub enroll : String → Entries → ℕ → ℕ → Region → ℕ × Region
enroll platform entries source ts r =
    let (pids, s1) = assign_player_ids (puuids_of entries) r.store in
    let (new, s2) = cohort_add_batch pids source ts s1 in
    (
      length new,
      record r {
        store = add_snapshots ts entries pids s2;
        frontier =
            frontier_push_batch platform bucket_priority ts (fresh_tasks pids (puuids_of entries))
              r.frontier;
      },
    )

-- `page` is 1 at least.
abbrev pub cursor_page : ℕ → ℕ
cursor_page cursor = if leb 1 (cursor % 10000) then cursor % 10000 else 1

abbrev pub next_cursor : ℕ → Entries → ℕ
next_cursor cursor [] = (cursor / 10000 + 1) * 10000 + 1
next_cursor cursor (e ∷ es) = cursor / 10000 * 10000 + cursor_page cursor + 1

abbrev pub enroll_some : String → Entries → ℕ → Region → ℕ × Region
enroll_some platform [] ts r = (0, r)
enroll_some platform (e ∷ es) ts r = enroll platform (e ∷ es) cohort_src_ladder ts r

abbrev pub expand_from : String → ℕ → Option Entries → Region → Bool × Region
expand_from platform now_ms none r = (false, r)
expand_from platform now_ms (some entries) r =
    let (newly, r1) = enroll_some platform entries now_ms r in
    (ltb 0 newly, record r1 { expand_cursor = next_cursor r.expand_cursor entries })

-- `pages` answers a band's page, and with nothing behind the last band.
unfoldable pub maybe_expand : String → ℕ → (ℕ → ℕ → Option Entries) → Region → Bool × Region
unfolding update_brake enroll
maybe_expand platform now_ms pages r =
    let r1 = update_brake platform now_ms r in
    if r1.braked
    then (false, r1)
    else expand_from platform now_ms
        (pages (r1.expand_cursor / 10000) (cursor_page r1.expand_cursor)) r1

-- What came of a match: no such match, or none that can be parsed, or a record, its puuids, the
-- game's start (0 if negative), and what `save_raw_sample` comes to if it is called.
pub data Fetched : Type 0 where
  absent unparsable : Fetched
  parsed : MatchRecord → List String → ℕ → Try (Unit {0}) → Fetched

abbrev pub queue_adopted : String → ℕ → List (ℕ × String) → Frontier → Frontier
queue_adopted platform now_ms [] f = f
queue_adopted platform now_ms ((pid, puuid) ∷ adopted) f =
    queue_adopted platform now_ms adopted
      (frontier_push platform bucket_priority now_ms pid (fresh_task puuid) f)

abbrev pub skip : String → ℕ → Region → Region × Try Bool
skip platform game_id r = (record r { store = mark_seen platform game_id r.store }, ok false)

-- `save_raw_sample(...)?` before the adopted players are queued.
abbrev pub sampled : String → ℕ → List (ℕ × String) → Region → Try (Unit {0}) → Region × Try Bool
sampled platform now_ms adopted r (err e) = (r, err e)
sampled platform now_ms adopted r (ok _) =
    (record r { frontier = queue_adopted platform now_ms adopted r.frontier }, ok true)

abbrev pub after_store :
    String → ℕ → ℕ → Try (Unit {0}) → Region → Store × Try (List (ℕ × String)) → Region × Try Bool
after_store platform game_id now_ms saved r (s, err e) = (record r { store = s }, err e)
after_store platform game_id now_ms saved r (s, ok adopted) =
    sampled platform now_ms adopted (record r { store = s })
      (if ltb (game_id % 1000) raw_sample_permille then saved else ok tt)

module _ (crc : Bytes → ℕ) (compress : Bytes → Option Bytes) (encode_to_vec : MatchRecord → Bytes)
    (today : String) (day_files : String → Files) where
  -- What is done with an answer of the API; the metrics are left out. `own` is the crawler's
  -- platform; `platform` and `game_id` are those of the match's id.
  unfoldable pub fetch_and_store_match :
      String → String → ℕ → Fetched → ℕ → Region → Region × Try Bool
  fetch_and_store_match own platform game_id absent now_ms r = skip platform game_id r
  fetch_and_store_match own platform game_id unparsable now_ms r = skip platform game_id r
  fetch_and_store_match own platform game_id (parsed rec puuids ts_ms saved) now_ms r =
      if rec.queue_id == queue_id && str_eq rec.platform own
      then after_store own game_id now_ms saved r
          (store_match crc compress encode_to_vec today day_files rec puuids ts_ms r.braked r.store)
      else skip platform game_id r

  -- The matches of a visit, in the order in which their fetches end; a failed one is logged.
  unfoldable pub fetch_all : String → ℕ → List ((String × ℕ) × Fetched) → Region → Region
  unfolding fetch_and_store_match
  fetch_all own now_ms [] r = r
  fetch_all own now_ms (((platform, game_id), got) ∷ rest) r =
      fetch_all own now_ms rest (fetch_and_store_match own platform game_id got now_ms r).0

  -- What `process_player` does after it has chosen the matches to fetch; the choice, by the pages of
  -- the match list and the games seen, and the visit's rank snapshot are left out. It ends with an
  -- error before any match, with a deep visit that shutdown cut short, or with the matches fetched
  -- and the next visit's time.
  pub data Visit : Type 0 where
    failed : Visit
    cut_short : List ((String × ℕ) × Fetched) → Visit
    finished : List ((String × ℕ) × Fetched) → ℕ → Visit

  abbrev pub reschedule : String → ℕ → ℕ → FrontierTask → Region → Region
  reschedule own due pid task r = record r {
    frontier = frontier_push own bucket_priority due pid task r.frontier;
  }

  abbrev pub process_player : String → ℕ → ℕ → FrontierTask → Visit → Region → Region
  process_player own now_ms pid task failed r =
      reschedule own (now_ms + 3600 * 1000) pid task (update_brake own now_ms r)
  process_player own now_ms pid task (cut_short matches) r =
      reschedule own now_ms pid (record { puuid = task.puuid; last_visit_ms = deep_visit_ms })
        (fetch_all own now_ms matches (update_brake own now_ms r))
  process_player own now_ms pid task (finished matches due) r =
      reschedule own due pid (record { puuid = task.puuid; last_visit_ms = now_ms })
        (fetch_all own now_ms matches (update_brake own now_ms r))

  abbrev pub handle_task :
      String → ℕ → (ℕ → Visit) → (ℕ → ℕ → Option Entries) → Option Popped → Region → Region
  handle_task own now_ms visits pages none r = (maybe_expand own now_ms pages r).1
  handle_task own now_ms visits pages (some p) r =
      if is_cohort r.store p.player_id
      then process_player own now_ms p.player_id p.task (visits p.player_id) r
      else r

  -- One turn of the loop of `run`, behind `maybe_seed` and before the commit.
  unfoldable pub pass : String → ℕ → (ℕ → Visit) → (ℕ → ℕ → Option Entries) → Region → Region
  unfolding fetch_all maybe_expand update_brake
  pass own now_ms visits pages r =
      let (popped, f) = frontier_pop_due own now_ms r.frontier in
      handle_task own now_ms visits pages popped (record r { frontier = f })
