-- ===== src/Store/Match.antt =====
-- `store_match` of crates/server/src/storage.rs. The date, the files of a
-- platform's day and the libraries' functions are parameters. Ten players at most are in a match.
pub mod Again
pub mod Counted
use lol_crawler.Prelude.{
  ℕ, Bool, true, false, not, ◌&&◌, Option, none, some, List, [], ◌∷◌, ltb, if◌then◌else◌,
}
use lol_crawler.Prelude.Result.{Result, ok, err, ◌>>=◌}
use lol_crawler.Prelude.Maps.{String, str_eq, find, insert}
use lol_crawler.Columnar.Varint.{Bytes}
use lol_crawler.Record.{Participant, MatchRecord}
use lol_crawler.Segment.Error.{Try}
use lol_crawler.Segment.Writer.{Files, SegmentWriter, open_writer, needs_roll, append, flush, roll}
use lol_crawler.Store.{GameKey, game_eq, Store, mark_seen, durable_checkpoint}
use lol_crawler.Store.Players.{assign_player_ids}
use lol_crawler.Store.Cohort.{is_there, adopt_participants}
use lol_crawler.Store.History.{record_game}

abbrev pub remake_max_duration_s : ℕ
remake_max_duration_s = 300

-- The ids go into the participants, `zip` ending with the shorter list.
abbrev pub with_ids : List Participant → List ℕ → List Participant
with_ids (p ∷ ps) (id ∷ ids) = record p { player_id = id } ∷ with_ids ps ids
with_ids ps _ = ps

abbrev pub pair_up : List ℕ → List String → List (ℕ × String)
pair_up (id ∷ ids) (p ∷ ps) = (id, p) ∷ pair_up ids ps
pair_up _ _ = []

abbrev pub mark_remake : GameKey → Store → Store
mark_remake key s = record s { progress = insert game_eq key [] s.progress }

-- What a match that is not stored yet adds to the tables; those adopted.
abbrev pub count_game :
    Bool → ℕ → GameKey → List ℕ → List String → Bool → Store → List (ℕ × String) × Store
count_game is_remake ts_ms key ids puuids growth_paused s =
    if is_remake
    then ([], mark_remake key s)
    else (let (adopted, s1) = adopt_participants growth_paused ts_ms (pair_up ids puuids) s in
        (adopted, record_game key ids ts_ms s1))

abbrev pub already_stored : GameKey → Store → Bool
already_stored key s = is_there (find game_eq key s.progress)

abbrev pub derive :
    Bool → Bool → ℕ → GameKey → List ℕ → List String → Bool → Store → List (ℕ × String) × Store
derive stored is_remake ts_ms key ids puuids growth_paused s =
    if stored then ([], s) else count_game is_remake ts_ms key ids puuids growth_paused s

-- The transaction: the record with its ids, those adopted, and the tables.
unfoldable pub store_tables :
    MatchRecord → List String → ℕ → Bool → Store → MatchRecord × List (ℕ × String) × Store
store_tables rec puuids ts_ms growth_paused s =
    let key : GameKey = record { platform = rec.platform; game_id = rec.game_id } in
    let (ids, s1) = assign_player_ids puuids s in
    let (adopted, s2) =
      derive (already_stored key s) (ltb rec.duration_s remake_max_duration_s) ts_ms key ids puuids
        growth_paused s1 in
    (record rec { participants = with_ids rec.participants ids }, adopted, s2)

module _ (crc : Bytes → ℕ) (compress : Bytes → Option Bytes) (encode_to_vec : MatchRecord → Bytes)
    (today : String) (day_files : String → Files) where
  abbrev pub rolled : String → SegmentWriter → Try SegmentWriter
  rolled platform w =
      if needs_roll today w
      then (roll crc compress today (day_files platform) w >>= λ r. ok (r.1))
      else ok w

  -- The platform's writer, on today's files.
  abbrev pub writer_for : String → Option SegmentWriter → Try SegmentWriter
  writer_for platform none = open_writer today (day_files platform)
  writer_for platform (some w) = rolled platform w

  abbrev pub must_roll : Option SegmentWriter → Bool
  must_roll none = false
  must_roll (some w) = needs_roll today w

  abbrev pub appended : MatchRecord → Store → Try SegmentWriter → Store × Try (Unit {0})
  appended rec s (err e) = (s, err e)
  appended rec s (ok w) = (
    mark_seen rec.platform rec.game_id
        (record s { writers = insert str_eq rec.platform (append encode_to_vec w rec) s.writers }),
    ok tt,
  )

  -- A roll is preceded by a checkpoint.
  unfoldable pub append_match : MatchRecord → Store → Store × Try (Unit {0})
  append_match rec s =
      let s1 = if must_roll (find str_eq rec.platform s.writers) then durable_checkpoint s else s in
      appended rec s1 (writer_for rec.platform (find str_eq rec.platform s.writers))

  abbrev pub outcome : List (ℕ × String) → Try (Unit {0}) → Try (List (ℕ × String))
  outcome adopted (err e) = err e
  outcome adopted (ok u) = ok adopted

  unfoldable pub store_match :
      MatchRecord → List String → ℕ → Bool → Store → Store × Try (List (ℕ × String))
  unfolding append_match store_tables
  store_match rec puuids ts_ms growth_paused s =
      let (rec', adopted, s1) = store_tables rec puuids ts_ms growth_paused s in
      let (s2, r) = append_match rec' s1 in (s2, outcome adopted r)
