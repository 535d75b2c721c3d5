-- ===== src/Crawler/Queued.antt =====
-- No member of the cohort is ever without a task, but the one that the crawler is working on.
use lol_crawler.Prelude.{
  ℕ, ◌≡◌, ◌⊎◌, sym, ap, ◌∙◌, inl, inr, Bool, true, false, not, ◌&&◌, Option, List, [], ◌∷◌, leb,
  ltb, ◌==◌, ◌%◌, refl, if◌then◌else◌,
}
use lol_crawler.Prelude.Result.{ok, err}
use lol_crawler.Prelude.Maps.{String, str_eq, find}
use lol_crawler.Prelude.Maps.Lookup.{find-insert}
use lol_crawler.Columnar.Varint.{Bytes}
use lol_crawler.Record.{MatchRecord}
use lol_crawler.Segment.Error.{Try}
use lol_crawler.Segment.Writer.{Files}
use lol_crawler.Store.{GameKey, Store, mark_seen}
use lol_crawler.Store.Players.{assign_player_ids}
use lol_crawler.Store.Cohort.{
  is_there, is_cohort, adoption_threshold, sightings, adopt, sight, participant_step, prepend,
  adopt_participants, not_members, enrol_all, cohort_add_batch,
}
use lol_crawler.Store.History.{record_game}
use lol_crawler.Store.Match.{
  with_ids, pair_up, already_stored, derive, store_tables, remake_max_duration_s, append_match,
  outcome, store_match,
}
use lol_crawler.Store.Match.Again.{assign_player_ids-Same, append_match-Same}
use lol_crawler.Store.Match.Counted.{length-assign_player_ids}
use lol_crawler.Frontier.{bucket_priority, Frontier}
use lol_crawler.Frontier.Agrees.{IsFrontier}
use lol_crawler.Frontier.Runs.{frontier_push_batch-IsFrontier}
use lol_crawler.Crawler.{
  Region, Entries, puuids_of, fresh_tasks, add_snapshots, raw_sample_permille, enroll, skip,
  sampled, after_store, Fetched, absent, unparsable, parsed, fetch_and_store_match, queue_id,
}
use lol_crawler.Crawler.Members.{
  is_queued, there_if, if_there, is_queued-batch, is_queued-adopted, queue_adopted-IsFrontier,
  enrol_all-member, not_members-contains, add_snapshots-cohort,
}

-- The tables of the queue agree, and the members who are not in hand have a task.
pub record AllQueued (in_hand : ℕ → Bool) (s : Store) (f : Frontier) : Type 0 where
  pub tables : IsFrontier f
  pub tasks : (pid : ℕ) → is_cohort s pid ≡ true → in_hand pid ≡ false → is_queued pid f ≡ true

-- Enrolling a page of the ladder leaves every member with a task, the new ones included.
pub enroll-AllQueued :
    (in_hand : ℕ → Bool) (platform : String) (entries : Entries) (source ts : ℕ) (r : Region)
    → AllQueued in_hand r.store r.frontier
    → AllQueued in_hand
        (enroll platform entries source ts r).1.store
        (enroll platform entries source ts r).1.frontier
unfolding enroll cohort_add_batch
enroll-AllQueued in_hand platform entries source ts r h = record {
  tables =
      frontier_push_batch-IsFrontier platform bucket_priority ts
        (fresh_tasks pids (puuids_of entries)) r.frontier h.tables;
  tasks = λ q m free.
      is_queued-batch q platform bucket_priority ts pids (puuids_of entries) r.frontier h.tables
        (length-assign_player_ids (puuids_of entries) r.store)
        (elim (enrol_all-member q ts source (not_members s1 pids) s1 (before q m)) [
          | inl e ↦ inl (not_members-contains q s1 pids e)
          | inr o ↦ inr (
              h.tasks q
                (ap (λ c. is_there (find ◌==◌ q c))
                    (sym (assign_player_ids-Same (puuids_of entries) r.store).cohort)
                  ∙ o)
                free)
        ]);
}
  where
    pids : List ℕ
    pids = (assign_player_ids (puuids_of entries) r.store).0

    s1 : Store
    s1 = (assign_player_ids (puuids_of entries) r.store).1

    before :
        (q : ℕ)
        → is_cohort (add_snapshots ts entries pids (enrol_all ts source (not_members s1 pids) s1)) q
          ≡ true
        → is_cohort (enrol_all ts source (not_members s1 pids) s1) q ≡ true
    before q m =
        ap (λ c. is_there (find ◌==◌ q c))
          (sym
            (add_snapshots-cohort ts entries pids (enrol_all ts source (not_members s1 pids) s1)))
        ∙ m

-- Who is a member after the adoption was one before, or was adopted.
adopt_participants-member :
    (q : ℕ) (paused : Bool) (ts_ms : ℕ) (ps : List (ℕ × String)) (s : Store)
    → is_cohort (adopt_participants paused ts_ms ps s).1 q ≡ true
    → (is_there (find ◌==◌ q (adopt_participants paused ts_ms ps s).0) ≡ true)
      ⊎ (is_cohort s q ≡ true)
unfolding adopt_participants
adopt_participants-member q paused ts_ms [] s h = inr h
adopt_participants-member q paused ts_ms ((pid, puuid) ∷ ps) s h =
    elim (adopt_participants-member q paused ts_ms ps (participant_step paused ts_ms pid puuid s).1
      h) [
        | inl e ↦ inl (
            behind (participant_step paused ts_ms pid puuid s).0
              (adopt_participants paused ts_ms ps (participant_step paused ts_ms pid puuid s).1).0
              e)
        | inr m ↦
            by_tests (is_cohort s pid) (not paused && leb adoption_threshold (sightings s pid))
              (adopt_participants paused ts_ms ps (participant_step paused ts_ms pid puuid s).1).0 m
      ]
  where
    behind :
        (here rest : List (ℕ × String))
        → is_there (find ◌==◌ q rest) ≡ true
        → is_there (find ◌==◌ q (prepend here rest)) ≡ true
    behind [] rest e = e
    behind ((p, n) ∷ here) rest e =
        there_if (q == p) n (find ◌==◌ q (prepend here rest)) (inr (behind here rest e))

    by_tests :
        (b c : Bool) (rest : List (ℕ × String))
        → is_cohort
            (if◌then◌else◌ {A = List (ℕ × String) × Store} b
              ([], s)
              (if c then ((pid, puuid) ∷ [], adopt ts_ms pid s) else ([], sight pid s))).1
            q
          ≡ true
        → (is_there (
              find ◌==◌ q (
                prepend
                  (if◌then◌else◌ {A = List (ℕ × String) × Store} b
                    ([], s)
                    (if c then ((pid, puuid) ∷ [], adopt ts_ms pid s) else ([], sight pid s))).0
                  rest))
            ≡ true)
          ⊎ (is_cohort s q ≡ true)
    by_tests true c rest m = inr m
    by_tests false true rest m =
        elim (if_there (q == pid) (ts_ms, 1) (find ◌==◌ q s.cohort)
          (ap is_there (sym (find-insert q pid (ts_ms, 1) s.cohort)) ∙ m)) [
            | inl t ↦ inl (there_if (q == pid) puuid (find ◌==◌ q rest) (inl t))
            | inr g ↦ inr g
          ]
    by_tests false false rest m = inr m

derive-member :
    (q : ℕ) (stored is_remake : Bool) (ts_ms : ℕ) (key : GameKey) (ids : List ℕ)
    (puuids : List String) (paused : Bool) (s : Store)
    → is_cohort (derive stored is_remake ts_ms key ids puuids paused s).1 q ≡ true
    → (is_there (find ◌==◌ q (derive stored is_remake ts_ms key ids puuids paused s).0) ≡ true)
      ⊎ (is_cohort s q ≡ true)
unfolding record_game
derive-member q true is_remake ts_ms key ids puuids paused s m = inr m
derive-member q false true ts_ms key ids puuids paused s m = inr m
derive-member q false false ts_ms key ids puuids paused s m =
    adopt_participants-member q paused ts_ms (pair_up ids puuids) s m

module _ (crc : Bytes → ℕ) (compress : Bytes → Option Bytes) (encode_to_vec : MatchRecord → Bytes)
    (today : String) (day_files : String → Files) where
  store_match-member :
      (q : ℕ) (rec : MatchRecord) (puuids : List String) (ts_ms : ℕ) (paused : Bool) (s : Store)
      (adopted : List (ℕ × String))
      → (store_match crc compress encode_to_vec today day_files rec puuids ts_ms paused s).1
        ≡ ok adopted
      → is_cohort
          (store_match crc compress encode_to_vec today day_files rec puuids ts_ms paused s).0
          q
        ≡ true
      → (is_there (find ◌==◌ q adopted) ≡ true) ⊎ (is_cohort s q ≡ true)
  unfolding store_match store_tables
  store_match-member q rec puuids ts_ms paused s adopted e m =
      let key : GameKey = record { platform = rec.platform; game_id = rec.game_id } in
      let ids : List ℕ = (assign_player_ids puuids s).0 in
      let s1 : Store = (assign_player_ids puuids s).1 in
      let b : Bool = ltb rec.duration_s remake_max_duration_s in
      let d : List (ℕ × String) × Store =
        derive (already_stored key s) b ts_ms key ids puuids paused s1 in
      let rec' : MatchRecord = record rec { participants = with_ids rec.participants ids } in
      let kept = append_match-Same crc compress encode_to_vec today day_files rec' d.1 in
      let m' : is_cohort d.1 q ≡ true = ap (λ c. is_there (find ◌==◌ q c)) (sym kept.cohort) ∙ m in
      let same : d.0 ≡ adopted =
        of d.0 (append_match crc compress encode_to_vec today day_files rec' d.1).1 e in
      elim (derive-member q (already_stored key s) b ts_ms key ids puuids paused s1 m') [
        | inl x ↦ inl (ap (λ l. is_there (find ◌==◌ q l)) (sym same) ∙ x)
        | inr o ↦
            inr (
              ap (λ c. is_there (find ◌==◌ q c)) (sym (assign_player_ids-Same puuids s).cohort) ∙ o)
      ]
    where
      of :
          (l : List (ℕ × String)) (r : Try (Unit {0}))
          → outcome crc compress encode_to_vec today day_files l r ≡ ok adopted
          → l ≡ adopted
      of l (err x) e = cc
      of l (ok u) e = cc

  after_store-AllQueued :
      (in_hand : ℕ → Bool) (own : String) (game_id now_ms : ℕ) (saved : Try (Unit {0})) (r : Region)
      (s : Store) (result : Try (List (ℕ × String))) (adopted : List (ℕ × String))
      → saved ≡ ok tt
      → result ≡ ok adopted
      → ((q : ℕ)
          → is_cohort s q ≡ true
          → (is_there (find ◌==◌ q adopted) ≡ true) ⊎ (is_cohort r.store q ≡ true))
      → AllQueued in_hand r.store r.frontier
      → AllQueued in_hand
          (after_store own game_id now_ms saved r (s, result)).0.store
          (after_store own game_id now_ms saved r (s, result)).0.frontier
  after_store-AllQueued in_hand own game_id now_ms saved r s (err x) adopted k e members h = cc
  after_store-AllQueued in_hand own game_id now_ms saved r s (ok l) adopted k e members h =
      by_sample (if ltb (game_id % 1000) raw_sample_permille then saved else ok tt)
        (by_number (ltb (game_id % 1000) raw_sample_permille))
    where
      by_number : (b : Bool) → (if b then saved else ok tt) ≡ ok tt
      by_number true = k
      by_number false = refl

      by_sample :
          (t : Try (Unit {0}))
          → t ≡ ok tt
          → AllQueued in_hand
              (sampled own now_ms l (record r { store = s }) t).0.store
              (sampled own now_ms l (record r { store = s }) t).0.frontier
      by_sample (err x) e' = cc e'
      by_sample (ok u) e' = record {
        tables = queue_adopted-IsFrontier own now_ms l r.frontier h.tables;
        tasks = λ q m free.
            is_queued-adopted q own now_ms l r.frontier h.tables (elim (members q m) [
              | inl x ↦
                  let same : l ≡ adopted = cc e in inl (ap (λ t. is_there (find ◌==◌ q t)) same ∙ x)
              | inr o ↦ inr (h.tasks q o free)
            ]);
      }

  -- Saving the raw sample of a match succeeds.
  abbrev pub IsSampled : Fetched → Type 0
  IsSampled (parsed rec puuids ts_ms saved) = saved ≡ ok tt
  IsSampled _ = Unit {0}

  -- A match that is fetched leaves every member with a task, those whom it adopts included, where
  -- storing it and saving its sample succeed.
  pub fetch_and_store_match-AllQueued :
      (in_hand : ℕ → Bool) (own platform : String) (game_id : ℕ) (got : Fetched) (now_ms : ℕ)
      (r : Region)
      → ((rec : MatchRecord) (puuids : List String) (ts_ms : ℕ)
          → (adopted : List (ℕ × String)) × ((store_match crc compress encode_to_vec today day_files
                rec puuids ts_ms r.braked r.store).1
              ≡ ok adopted))
      → IsSampled got
      → AllQueued in_hand r.store r.frontier
      → AllQueued in_hand
          (fetch_and_store_match crc compress encode_to_vec today day_files own platform game_id got
            now_ms r).0.store
          (fetch_and_store_match crc compress encode_to_vec today day_files own platform game_id got
            now_ms r).0.frontier
  unfolding fetch_and_store_match mark_seen
  fetch_and_store_match-AllQueued in_hand own platform game_id absent now_ms r stores k h = record {
    tables = h.tables;
    tasks = h.tasks;
  }
  fetch_and_store_match-AllQueued in_hand own platform game_id unparsable now_ms r stores k h =
      record { tables = h.tables; tasks = h.tasks }
  fetch_and_store_match-AllQueued in_hand own platform game_id (parsed rec puuids ts_ms saved)
        now_ms r stores k h =
      by_test (rec.queue_id == queue_id && str_eq rec.platform own)
    where
      by_test :
          (b : Bool)
          → AllQueued in_hand
              (if b
                then after_store own game_id now_ms saved r (
                    store_match crc compress encode_to_vec today day_files rec puuids ts_ms r.braked
                      r.store)
                else skip platform game_id r).0.store
              (if b
                then after_store own game_id now_ms saved r (
                    store_match crc compress encode_to_vec today day_files rec puuids ts_ms r.braked
                      r.store)
                else skip platform game_id r).0.frontier
      by_test false = record { tables = h.tables; tasks = h.tasks }
      by_test true =
          let (adopted, e) = stores rec puuids ts_ms in
          let got : Store × Try (List (ℕ × String)) =
            store_match crc compress encode_to_vec today day_files rec puuids ts_ms r.braked
              r.store in
          after_store-AllQueued in_hand own game_id now_ms saved r got.0 got.1 adopted k e
            (λ q m. store_match-member q rec puuids ts_ms r.braked r.store adopted e m) h
