-- ===== src/Store/Cohort.antt =====
-- The cohort of crates/server/src/storage.rs: members by enrolment (`cohort_add_batch`), and
-- outsiders who are adopted when stored matches show them often enough (in `store_match`).
pub mod Apart
use lol_crawler.Prelude.{
  ℕ, ◌+◌, ◌%◌, ◌^◌, Bool, true, false, not, ◌&&◌, Option, none, some, List, [], ◌∷◌, leb, ◌==◌,
  if◌then◌else◌,
}
use lol_crawler.Prelude.Maps.{String, find, insert, remove}
use lol_crawler.Store.{Store}

abbrev pub cohort_src_adopted : ℕ
cohort_src_adopted = 1

abbrev pub adoption_threshold : ℕ
adoption_threshold = 2

abbrev pub is_there : {A : Type 0} → Option A → Bool
is_there none = false
is_there (some a) = true

abbrev pub is_cohort : Store → ℕ → Bool
is_cohort s player_id = is_there (find ◌==◌ player_id s.cohort)

abbrev pub or_zero : Option ℕ → ℕ
or_zero none = 0
or_zero (some n) = n

abbrev pub sightings : Store → ℕ → ℕ
sightings s pid = (or_zero (find ◌==◌ pid s.outsider_seen) + 1) % 2 ^ 32

abbrev pub adopt : ℕ → ℕ → Store → Store
adopt ts_ms pid s = record s {
  outsider_seen = remove ◌==◌ pid s.outsider_seen;
  cohort = insert ◌==◌ pid (ts_ms, cohort_src_adopted) s.cohort;
}

abbrev pub sight : ℕ → Store → Store
sight pid s = record s { outsider_seen = insert ◌==◌ pid (sightings s pid) s.outsider_seen }

abbrev pub outsider_step : Bool → ℕ → ℕ → String → Store → List (ℕ × String) × Store
outsider_step growth_paused ts_ms pid puuid s =
    if not growth_paused && leb adoption_threshold (sightings s pid)
    then ((pid, puuid) ∷ [], adopt ts_ms pid s)
    else ([], sight pid s)

abbrev pub participant_step : Bool → ℕ → ℕ → String → Store → List (ℕ × String) × Store
participant_step growth_paused ts_ms pid puuid s =
    if is_cohort s pid then ([], s) else outsider_step growth_paused ts_ms pid puuid s

abbrev pub prepend : List (ℕ × String) → List (ℕ × String) → List (ℕ × String)
prepend [] ys = ys
prepend (x ∷ xs) ys = x ∷ prepend xs ys

-- The participants in turn; those adopted, in order.
unfoldable pub adopt_participants : Bool → ℕ → List (ℕ × String) → Store → List (ℕ × String) × Store
adopt_participants growth_paused ts_ms [] s = ([], s)
adopt_participants growth_paused ts_ms ((pid, puuid) ∷ ps) s =
    let (here, s1) = participant_step growth_paused ts_ms pid puuid s in
    let (rest, s2) = adopt_participants growth_paused ts_ms ps s1 in (prepend here rest, s2)

unfoldable pub not_members : Store → List ℕ → List ℕ
not_members s [] = []
not_members s (pid ∷ pids) =
    let rest = not_members s pids in if is_cohort s pid then rest else pid ∷ rest

abbrev pub enrol : ℕ → ℕ → ℕ → Store → Store
enrol now_ms source pid s = record s {
  cohort = insert ◌==◌ pid (now_ms, source) s.cohort;
  outsider_seen = remove ◌==◌ pid s.outsider_seen;
}

unfoldable pub enrol_all : ℕ → ℕ → List ℕ → Store → Store
enrol_all now_ms source [] s = s
enrol_all now_ms source (pid ∷ pids) s = enrol_all now_ms source pids (enrol now_ms source pid s)

unfoldable pub cohort_add_batch : List ℕ → ℕ → ℕ → Store → List ℕ × Store
unfolding not_members enrol_all
cohort_add_batch players source now_ms s =
    let new = not_members s players in (new, enrol_all now_ms source new s)
