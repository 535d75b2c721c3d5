-- ===== src/Store.antt =====
-- `Store` of crates/server/src/storage.rs: the tables of redb that the crawler works on, with the
-- caches that are written through to them, and the segment writers. Calls of redb and postcard
-- succeed; each method is one transaction.
pub mod Players
pub mod Cohort
pub mod History
pub mod Match
use lol_crawler.Prelude.{
  ℕ, ◌+◌, Bool, true, false, ◌&&◌, ◌||◌, Option, none, some, List, [], ◌∷◌, ◌++◌, length, ltb, ◌==◌,
  if◌then◌else◌,
}
use lol_crawler.Prelude.Maps.{String, str_eq, find, insert}
use lol_crawler.Columnar.Varint.{Bytes}
use lol_crawler.Segment.Writer.{SegmentWriter, should_flush}

-- `(platform, game_id)`.
pub record GameKey : Type 0 where
  pub platform : String
  pub game_id : ℕ

abbrev pub game_eq : GameKey → GameKey → Bool
game_eq a b = str_eq a.platform b.platform && a.game_id == b.game_id

-- `(player_id, ts_ms)`.
pub record TlKey : Type 0 where
  pub player_id : ℕ
  pub ts_ms : ℕ

abbrev pub tl_eq : TlKey → TlKey → Bool
tl_eq a b = a.player_id == b.player_id && a.ts_ms == b.ts_ms

abbrev pub tl_before : TlKey → TlKey → Bool
tl_before a b = ltb a.player_id b.player_id || (a.player_id == b.player_id && ltb a.ts_ms b.ts_ms)

-- A stored game of a player: its id, and the player's place in it.
pub record TlEntry : Type 0 where
  pub game_id : ℕ
  pub place : ℕ

pub record Store : Type 0 where
  pub players : List (String × ℕ)
  pub next_player_id : ℕ
  pub seen : List (String × List ℕ)
  pub dirty_bitmaps : Bool
  pub writers : List (String × SegmentWriter)
  pub pending_ranks : List (TlKey × Bytes)
  pub ranks : List (TlKey × Bytes)
  -- When a member came, and by which way.
  pub cohort : List (ℕ × (ℕ × ℕ))
  pub outsider_seen : List (ℕ × ℕ)
  -- In the order of their keys.
  pub tl : List (TlKey × TlEntry)
  pub progress : List (GameKey × List ℕ)
  pub valid_samples : List (String × ℕ)

abbrev pub contains : List ℕ → ℕ → Bool
contains [] n = false
contains (m ∷ ms) n = n == m || contains ms n

abbrev pub seen_in : Option (List ℕ) → ℕ → Bool
seen_in none game_id = false
seen_in (some games) game_id = contains games game_id

unfoldable pub is_seen : Store → String → ℕ → Bool
is_seen s platform game_id = seen_in (find str_eq platform s.seen) game_id

abbrev pub with_game : Option (List ℕ) → ℕ → List ℕ
with_game none game_id = game_id ∷ []
with_game (some games) game_id = if contains games game_id then games else game_id ∷ games

unfoldable pub mark_seen : String → ℕ → Store → Store
mark_seen platform game_id s = record s {
  seen = insert str_eq platform (with_game (find str_eq platform s.seen) game_id) s.seen;
  dirty_bitmaps = true;
}

abbrev pub add_rank_snapshot : ℕ → ℕ → Bytes → Store → Store
add_rank_snapshot player_id ts_ms snap s = record s {
  pending_ranks = s.pending_ranks ++ ((record { player_id = player_id; ts_ms = ts_ms }, snap) ∷ []);
}

abbrev pub insert_all : List (TlKey × Bytes) → List (TlKey × Bytes) → List (TlKey × Bytes)
insert_all [] ranks = ranks
insert_all ((k, val) ∷ rest) ranks = insert_all rest (insert tl_eq k val ranks)

-- The buffered ranks go to their table; with it all that was written before is on the disk. The
-- time of the checkpoint, which nothing reads, is left out.
unfoldable pub durable_checkpoint : Store → Store
durable_checkpoint s = record s { ranks = insert_all s.pending_ranks s.ranks; pending_ranks = [] }

abbrev pub any_full : List (String × SegmentWriter) → Bool
any_full [] = false
any_full ((platform, w) ∷ ws) = should_flush w || any_full ws

abbrev pub should_commit : Store → Bool
should_commit s = any_full s.writers || ltb 5000 (length s.pending_ranks)
