-- ===== src/Store/Match/Counted.antt =====
-- The totals of valid samples through `store_match`.
use lol_crawler.Prelude.{
  ℕ, suc, ◌<◌, ◌≤◌, ◌≡◌, refl, sym, ap, subst, ◌∙◌, Bool, true, false, not, ◌&&◌, Option, none,
  some, List, [], ◌∷◌, length, get_or, leb, ltb, ◌==◌, if◌then◌else◌, arith,
}
use lol_crawler.Prelude.Maps.{String, str_eq, find, insert}
use lol_crawler.Columnar.Varint.{Bytes}
use lol_crawler.Record.{MatchRecord}
use lol_crawler.Segment.Writer.{Files}
use lol_crawler.Store.{GameKey, game_eq, Store}
use lol_crawler.Store.Players.{player_id_of, assign_player_ids}
use lol_crawler.Store.Cohort.{
  is_there, or_zero, adoption_threshold, sightings, participant_step, outsider_step,
  adopt_participants, adopt, sight,
}
use lol_crawler.Store.History.Keeps.{AllPlaces}
use lol_crawler.Store.History.Valid.{valid_count, old_weight, valid_count-insert}
use lol_crawler.Store.Match.{
  with_ids, pair_up, already_stored, derive, store_tables, remake_max_duration_s, store_match,
}
use lol_crawler.Store.Match.Again.{assign_player_ids-Same, append_match-Same}
use lol_crawler.Store.History.Counted.{IsCounted, record_game-IsCounted}

-- A store with the same three tables.
IsCounted-same :
    (s s' : Store)
    → s'.tl ≡ s.tl
    → s'.progress ≡ s.progress
    → s'.valid_samples ≡ s.valid_samples
    → IsCounted s
    → IsCounted s'
IsCounted-same s s' a b c h = record {
  totals = λ q. ap (λ m. or_zero (find str_eq q m)) c ∙ h.totals q ∙ ap (valid_count q) (sym b);
  places = subst (AllPlaces (λ n. n < 10)) (sym a) h.places;
}

participant_step-IsCounted :
    (paused : Bool) (ts_ms pid : ℕ) (puuid : String) (s : Store)
    → IsCounted s
    → IsCounted (participant_step paused ts_ms pid puuid s).1
participant_step-IsCounted paused ts_ms pid puuid s h =
    by_member (is_there (find ◌==◌ pid s.cohort))
  where
    by_member :
        (b : Bool)
        → IsCounted
            (if◌then◌else◌ {A = List (ℕ × String) × Store} b
              ([], s)
              (outsider_step paused ts_ms pid puuid s)).1
    by_member true = h
    by_member false = by_count (not paused && leb adoption_threshold (sightings s pid))
      where
        by_count :
            (b : Bool)
            → IsCounted
                (if◌then◌else◌ {A = List (ℕ × String) × Store} b
                  ((pid, puuid) ∷ [], adopt ts_ms pid s)
                  ([], sight pid s)).1
        by_count true = IsCounted-same s (adopt ts_ms pid s) refl refl refl h
        by_count false = IsCounted-same s (sight pid s) refl refl refl h

adopt_participants-IsCounted :
    (paused : Bool) (ts_ms : ℕ) (ps : List (ℕ × String)) (s : Store)
    → IsCounted s
    → IsCounted (adopt_participants paused ts_ms ps s).1
unfolding adopt_participants
adopt_participants-IsCounted paused ts_ms [] s h = h
adopt_participants-IsCounted paused ts_ms ((pid, puuid) ∷ ps) s h =
    adopt_participants-IsCounted paused ts_ms ps (participant_step paused ts_ms pid puuid s).1
      (participant_step-IsCounted paused ts_ms pid puuid s h)

adopt_participants-progress :
    (paused : Bool) (ts_ms : ℕ) (ps : List (ℕ × String)) (s : Store)
    → (adopt_participants paused ts_ms ps s).1.progress ≡ s.progress
unfolding adopt_participants
adopt_participants-progress paused ts_ms [] s = refl
adopt_participants-progress paused ts_ms ((pid, puuid) ∷ ps) s =
    adopt_participants-progress paused ts_ms ps (participant_step paused ts_ms pid puuid s).1
    ∙ by_tests (is_there (find ◌==◌ pid s.cohort))
        (not paused && leb adoption_threshold (sightings s pid))
  where
    by_tests :
        (b c : Bool)
        → (if◌then◌else◌ {A = List (ℕ × String) × Store} b
            ([], s)
            (if c then ((pid, puuid) ∷ [], adopt ts_ms pid s) else ([], sight pid s))).1.progress
          ≡ s.progress
    by_tests true c = refl
    by_tests false true = refl
    by_tests false false = refl

absent : {A : Type 0} (o : Option A) → is_there o ≡ false → o ≡ none
absent none h = refl
absent (some a) h = cc

pub length-assign_player_ids :
    (ps : List String) (s : Store) → length (assign_player_ids ps s).0 ≡ length ps
unfolding assign_player_ids
length-assign_player_ids [] s = refl
length-assign_player_ids (p ∷ ps) s = ap suc (length-assign_player_ids ps (player_id_of p s).1)

derive-IsCounted :
    (stored is_remake : Bool) (ts_ms : ℕ) (key : GameKey) (ids : List ℕ) (puuids : List String)
    (paused : Bool) (s : Store)
    → length ids ≤ 10
    → already_stored key s ≡ stored
    → IsCounted s
    → IsCounted (derive stored is_remake ts_ms key ids puuids paused s).1
derive-IsCounted true is_remake ts_ms key ids puuids paused s few e h = h
derive-IsCounted false true ts_ms key ids puuids paused s few e h = record {
  totals = λ q. h.totals q ∙ sym (remade q);
  places = h.places;
}
  where
    remade :
        (q : String) → valid_count q (insert game_eq key [] s.progress) ≡ valid_count q s.progress
    remade q =
        let count = valid_count-insert q key [] s.progress in
        let new : find game_eq key s.progress ≡ none = absent (find game_eq key s.progress) e in
        let old : old_weight q key (find game_eq key s.progress) ≡ 0 = ap (old_weight q key) new in
        omega (arith, count, old, nothing (str_eq q key.platform))
      where
        nothing : (b : Bool) → (if◌then◌else◌ {A = ℕ} b (get_or [] 10 0) 0) ≡ 0
        nothing true = refl
        nothing false = refl
derive-IsCounted false false ts_ms key ids puuids paused s few e h =
    record_game-IsCounted key ids ts_ms (adopt_participants paused ts_ms (pair_up ids puuids) s).1
      few
      (ap (find game_eq key) (adopt_participants-progress paused ts_ms (pair_up ids puuids) s)
        ∙ absent (find game_eq key s.progress) e)
      (adopt_participants-IsCounted paused ts_ms (pair_up ids puuids) s h)

module _ (crc : Bytes → ℕ) (compress : Bytes → Option Bytes) (encode_to_vec : MatchRecord → Bytes)
    (today : String) (day_files : String → Files) where
  -- Storing a match of ten players at most keeps, for every platform, the total of valid samples
  -- equal to the number of stored games that are marked as full-history samples.
  pub store_match-IsCounted :
      (rec : MatchRecord) (puuids : List String) (ts_ms : ℕ) (paused : Bool) (s : Store)
      → length puuids ≤ 10
      → IsCounted s
      → IsCounted
          (store_match crc compress encode_to_vec today day_files rec puuids ts_ms paused s).0
  unfolding store_match store_tables
  store_match-IsCounted rec puuids ts_ms paused s few h =
      let key : GameKey = record { platform = rec.platform; game_id = rec.game_id } in
      let ids : List ℕ = (assign_player_ids puuids s).0 in
      let s1 : Store = (assign_player_ids puuids s).1 in
      let b : Bool = ltb rec.duration_s remake_max_duration_s in
      let s2 : Store = (derive (already_stored key s) b ts_ms key ids puuids paused s1).1 in
      let a = assign_player_ids-Same puuids s in
      let h1 = IsCounted-same s s1 a.tl a.progress a.valid_samples h in
      let h2 : IsCounted s2 =
        derive-IsCounted (already_stored key s) b ts_ms key ids puuids paused s1
          (omega (arith, few, length-assign_player_ids puuids s))
          (ap (λ m. is_there (find game_eq key m)) a.progress) h1 in
      let k =
        append_match-Same crc compress encode_to_vec today day_files
          (record rec { participants = with_ids rec.participants ids }) s2 in
      IsCounted-same s2 _ k.tl k.progress k.valid_samples h2
