-- ===== src/Store/Match/Again.antt =====
-- A match that is stored twice counts once.
use lol_crawler.Prelude.{
  ℕ, ◌≡◌, refl, ap, ◌∙◌, inl, inr, Bool, true, false, Bool-cases, ◌&&◌, Option, none, some, List,
  [], ◌∷◌, ltb, get_or, ◌==◌, ==_self, if◌then◌else◌,
}
use lol_crawler.Prelude.Result.{ok, err}
use lol_crawler.Prelude.Maps.{String, str_eq, find, insert}
use lol_crawler.Prelude.Maps.Lookup.{str_eq_self}
use lol_crawler.Columnar.Varint.{Bytes}
use lol_crawler.Record.{MatchRecord}
use lol_crawler.Segment.Error.{Try}
use lol_crawler.Segment.Writer.{Files, SegmentWriter}
use lol_crawler.Store.{GameKey, game_eq, Store, mark_seen, durable_checkpoint}
use lol_crawler.Store.Players.{with_id, player_id_of, assign_player_ids}
use lol_crawler.Store.Cohort.{is_there}
use lol_crawler.Store.History.{Tally, raised, credited, record_game, is_full, first_progress}
use lol_crawler.Store.History.Keeps.{KeepsCredit, AllPlaces-any, credit_players-keeps}
use lol_crawler.Store.Match.{
  with_ids, already_stored, derive, store_tables, remake_max_duration_s, must_roll, writer_for,
  appended, append_match, store_match,
}

-- What the crawl progress is derived from: everything but the ids, the ranks and the segments.
pub record Same (s s' : Store) : Type 0 where
  pub cohort : s'.cohort ≡ s.cohort
  pub outsider_seen : s'.outsider_seen ≡ s.outsider_seen
  pub tl : s'.tl ≡ s.tl
  pub progress : s'.progress ≡ s.progress
  pub valid_samples : s'.valid_samples ≡ s.valid_samples

same : (s : Store) → Same s s
same s = record {
  cohort = refl;
  outsider_seen = refl;
  tl = refl;
  progress = refl;
  valid_samples = refl;
}

pub Same-then : (r s t : Store) → Same r s → Same s t → Same r t
Same-then r s t a b = record {
  cohort = b.cohort ∙ a.cohort;
  outsider_seen = b.outsider_seen ∙ a.outsider_seen;
  tl = b.tl ∙ a.tl;
  progress = b.progress ∙ a.progress;
  valid_samples = b.valid_samples ∙ a.valid_samples;
}

with_id-Same : (p : String) (o : Option ℕ) (s : Store) → Same s (with_id p o s).1
with_id-Same p none s = record {
  cohort = refl;
  outsider_seen = refl;
  tl = refl;
  progress = refl;
  valid_samples = refl;
}
with_id-Same p (some id) s = same s

pub assign_player_ids-Same : (ps : List String) (s : Store) → Same s (assign_player_ids ps s).1
unfolding assign_player_ids
assign_player_ids-Same [] s = same s
assign_player_ids-Same (p ∷ ps) s =
    Same-then s (player_id_of p s).1 _ (with_id-Same p (find str_eq p s.players) s)
      (assign_player_ids-Same ps (player_id_of p s).1)

game_eq_self : (k : GameKey) → game_eq k k ≡ true
game_eq_self k = rw (str_eq_self k.platform, ==_self k.game_id) refl

module _ {V : Type 0} where
  there_self :
      (k : GameKey) (v : V) (m : List (GameKey × V))
      → is_there (find game_eq k (insert game_eq k v m)) ≡ true
  there_self k v [] = rw (game_eq_self k) refl
  there_self k v ((j, w) ∷ m) = elim (Bool-cases (game_eq k j)) [
    | inl t ↦ rw t (rw t refl)
    | inr f ↦ rw f (rw f (there_self k v m))
  ]

  there_still :
      (k j : GameKey) (v : V) (m : List (GameKey × V))
      → is_there (find game_eq k m) ≡ true
      → is_there (find game_eq k (insert game_eq j v m)) ≡ true
  there_still k j v [] h = cc
  there_still k j v ((i, w) ∷ m) h = elim (Bool-cases (game_eq j i)) [
    | inl t ↦ rw t (elim (Bool-cases (game_eq k i)) [
      | inl u ↦ rw u refl
      | inr n ↦ let h' : is_there (find game_eq k m) ≡ true = rw n at h in rw n h'
    ])
    | inr f ↦ rw f (elim (Bool-cases (game_eq k i)) [
      | inl u ↦ rw u refl
      | inr n ↦
          let h' : is_there (find game_eq k m) ≡ true = rw n at h in rw n (there_still k j v m h')
    ])
  ]

credited-there :
    (k key : GameKey) (pr : List ℕ) (t : Tally)
    → is_there (find game_eq k t.progress) ≡ true
    → is_there (find game_eq k (credited key pr t).progress) ≡ true
credited-there k key pr t h = elim (Bool-cases (get_or pr 10 0 == 0 && is_full pr)) [
  | inl y ↦ rw y (there_still k key _ t.progress h)
  | inr n ↦ rw n (there_still k key pr t.progress h)
]

module _ (k : GameKey) where
  There : Tally → Type 0
  There t = is_there (find game_eq k t.progress) ≡ true

  There-kept : KeepsCredit k.platform (λ n. Unit {0}) There
  unfolding There
  There-kept game_id place pr t q e room h = credited-there k _ (raised pr place) t h

  record_game-there :
      (pids : List ℕ) (ts_ms : ℕ) (s : Store) → already_stored k (record_game k pids ts_ms s) ≡ true
  unfolding record_game There
  record_game-there pids ts_ms s =
      credit_players-keeps k.platform (λ n. Unit {0}) There There-kept ts_ms _ pids _
        (AllPlaces-any _) (there_self k (first_progress pids ts_ms s.tl) s.progress)

  derive-there :
      (is_remake : Bool) (ts_ms : ℕ) (ids : List ℕ) (puuids : List String) (paused stored : Bool)
      (s : Store)
      → (stored ≡ true → already_stored k s ≡ true)
      → already_stored k (derive stored is_remake ts_ms k ids puuids paused s).1 ≡ true
  derive-there is_remake ts_ms ids puuids paused true s h = h refl
  derive-there true ts_ms ids puuids paused false s h = there_self k [] s.progress
  derive-there false ts_ms ids puuids paused false s h = record_game-there ids ts_ms _

module _ (crc : Bytes → ℕ) (compress : Bytes → Option Bytes) (encode_to_vec : MatchRecord → Bytes)
    (today : String) (day_files : String → Files) where
  appended-Same :
      (rec : MatchRecord) (s : Store) (r : Try SegmentWriter)
      → Same s (appended crc compress encode_to_vec today day_files rec s r).0
  unfolding mark_seen
  appended-Same rec s (err e) = same s
  appended-Same rec s (ok w) = record {
    cohort = refl;
    outsider_seen = refl;
    tl = refl;
    progress = refl;
    valid_samples = refl;
  }

  pub append_match-Same :
      (rec : MatchRecord) (s : Store)
      → Same s (append_match crc compress encode_to_vec today day_files rec s).0
  unfolding append_match durable_checkpoint
  append_match-Same rec s =
      by_roll
        (must_roll crc compress encode_to_vec today day_files (find str_eq rec.platform s.writers))
    where
      by_roll :
          (b : Bool)
          → Same s
              (appended crc compress encode_to_vec today day_files rec
                (if b then durable_checkpoint s else s)
                (writer_for crc compress encode_to_vec today day_files rec.platform
                  (find str_eq rec.platform s.writers))).0
      by_roll true =
          Same-then s (durable_checkpoint s) _
            (record {
              cohort = refl;
              outsider_seen = refl;
              tl = refl;
              progress = refl;
              valid_samples = refl;
            })
            (appended-Same rec (durable_checkpoint s) _)
      by_roll false = appended-Same rec s _

  -- Of a match that is stored already, nothing is counted: the cohort, the outsiders' counts, the
  -- players' timelines, the progress and the totals stay as they were, and nobody is adopted.
  pub store_match-again :
      (rec : MatchRecord) (puuids : List String) (ts_ms : ℕ) (paused : Bool) (s : Store)
      → already_stored (record { platform = rec.platform; game_id = rec.game_id }) s ≡ true
      → Same s (store_match crc compress encode_to_vec today day_files rec puuids ts_ms paused s).0
        × ((store_tables rec puuids ts_ms paused s).1 ≡ [])
  unfolding store_match store_tables
  store_match-again rec puuids ts_ms paused s h = rw h (
    Same-then s (assign_player_ids puuids s).1 _ (assign_player_ids-Same puuids s)
        (append_match-Same _ (assign_player_ids puuids s).1),
    refl,
  )

  -- Whatever comes of it, a match that `store_match` was called with is stored.
  pub store_match-stored :
      (rec : MatchRecord) (puuids : List String) (ts_ms : ℕ) (paused : Bool) (s : Store)
      → already_stored
          (record { platform = rec.platform; game_id = rec.game_id })
          (store_match crc compress encode_to_vec today day_files rec puuids ts_ms paused s).0
        ≡ true
  unfolding store_match store_tables
  store_match-stored rec puuids ts_ms paused s =
      let key : GameKey = record { platform = rec.platform; game_id = rec.game_id } in
      let ids : List ℕ = (assign_player_ids puuids s).0 in
      let s1 : Store = (assign_player_ids puuids s).1 in
      let b : Bool = ltb rec.duration_s remake_max_duration_s in
      let kept =
        append_match-Same (record rec { participants = with_ids rec.participants ids })
          (derive (already_stored key s) b ts_ms key ids puuids paused s1).1 in
      ap (λ m. is_there (find game_eq key m)) kept.progress
      ∙ derive-there key b ts_ms ids puuids paused (already_stored key s) s1 (λ e.
        ap (λ m. is_there (find game_eq key m)) (assign_player_ids-Same puuids s).progress ∙ e)

  -- A match that is stored again, with whatever players, time and brake, is counted once: what the
  -- crawl progress is derived from is as the first call left it, and the second adopts nobody.
  pub store_match-twice :
      (rec rec' : MatchRecord) (puuids puuids' : List String) (ts_ms ts_ms' : ℕ)
      (paused paused' : Bool) (s : Store)
      → rec'.platform ≡ rec.platform
      → rec'.game_id ≡ rec.game_id
      → Same
          (store_match crc compress encode_to_vec today day_files rec puuids ts_ms paused s).0
          (store_match crc compress encode_to_vec today day_files rec' puuids' ts_ms' paused'
            (store_match crc compress encode_to_vec today day_files rec puuids ts_ms paused s).0).0
        × ((store_tables rec' puuids' ts_ms' paused'
              (store_match crc compress encode_to_vec today day_files rec puuids ts_ms paused
                s).0).1
            ≡ [])
  store_match-twice rec rec' puuids puuids' ts_ms ts_ms' paused paused' s p g =
      store_match-again rec' puuids' ts_ms' paused' _ (
        ap
          (λ k.
            already_stored k
              (store_match crc compress encode_to_vec today day_files rec puuids ts_ms paused s).0)
          (λ i. record { platform = p i; game_id = g i })
        ∙ store_match-stored rec puuids ts_ms paused s)
