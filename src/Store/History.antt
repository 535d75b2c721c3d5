-- ===== src/Store/History.antt =====
-- The crawl progress that `store_match` of crates/server/src/storage.rs keeps: for each stored game
-- how many stored earlier games each of its ten players has, and how many games have all they need.
pub mod Counted
pub mod Keeps
pub mod Valid
use lol_crawler.Prelude.{
  ℕ, zero, suc, ◌+◌, Bool, true, false, ◌&&◌, Option, none, some, List, [], ◌∷◌, ◌++◌, length,
  get_or, set, replicate, take, leb, ltb, ◌==◌, if◌then◌else◌,
}
use lol_crawler.Prelude.Maps.{String, str_eq, find, insert}
use lol_crawler.Store.{GameKey, game_eq, TlKey, tl_eq, tl_before, TlEntry, Store}

abbrev pub history_required : ℕ
history_required = 20

-- The table keeps the order of its keys.
unfoldable pub tl_insert : TlKey → TlEntry → List (TlKey × TlEntry) → List (TlKey × TlEntry)
tl_insert k v [] = (k, v) ∷ []
tl_insert k v ((k', v') ∷ tl) =
    let rest = tl_insert k v tl in
    if tl_eq k k'
    then (k, v) ∷ tl
    else if tl_before k k'
    then (k, v) ∷ ((k', v') ∷ tl)
    else (k', v') ∷ rest

-- The keys of a range `(pid, 0)..(pid, ts_ms)`.
unfoldable pub earlier : ℕ → ℕ → List (TlKey × TlEntry) → ℕ
earlier pid ts_ms [] = 0
earlier pid ts_ms ((k, v) ∷ tl) =
    let rest = earlier pid ts_ms tl in
    if pid == k.player_id && ltb k.ts_ms ts_ms then suc rest else rest

-- The loop over them stops at `required`.
abbrev pub predecessors : ℕ → ℕ → List (TlKey × TlEntry) → ℕ
predecessors pid ts_ms tl =
    if leb history_required (earlier pid ts_ms tl) then history_required else earlier pid ts_ms tl

-- The entries of a range `(pid, ts_ms + 1)..=(pid, u64::MAX)`, in order.
unfoldable pub later : ℕ → ℕ → List (TlKey × TlEntry) → List TlEntry
later pid ts_ms [] = []
later pid ts_ms ((k, v) ∷ tl) =
    let rest = later pid ts_ms tl in
    if pid == k.player_id && ltb ts_ms k.ts_ms then v ∷ rest else rest

unfoldable pub fill : ℕ → List ℕ → ℕ → List (TlKey × TlEntry) → List ℕ → List ℕ
fill i [] ts_ms tl progress = progress
fill i (pid ∷ pids) ts_ms tl progress =
    fill (suc i) pids ts_ms tl (set progress i (predecessors pid ts_ms tl))

abbrev pub all_enough : List ℕ → Bool
all_enough [] = true
all_enough (c ∷ cs) = leb history_required c && all_enough cs

abbrev pub is_full : List ℕ → Bool
is_full progress = all_enough (take 10 progress)

-- `progress[10] = 1` where all ten slots are full.
abbrev pub marked : List ℕ → List ℕ
marked progress = if is_full progress then set progress 10 1 else progress

abbrev pub newly : Bool → ℕ
newly true = 1
newly false = 0

unfoldable pub first_progress : List ℕ → ℕ → List (TlKey × TlEntry) → List ℕ
unfolding fill
first_progress pids ts_ms tl = marked (fill 0 pids ts_ms tl (replicate 11 0))

unfoldable pub enter : ℕ → ℕ → List ℕ → ℕ → List (TlKey × TlEntry) → List (TlKey × TlEntry)
unfolding tl_insert
enter i game_id [] ts_ms tl = tl
enter i game_id (pid ∷ pids) ts_ms tl = enter (suc i) game_id pids ts_ms (
    tl_insert (record { player_id = pid; ts_ms = ts_ms }) (record { game_id = game_id; place = i })
      tl)

-- The progress table, and how many games became valid samples.
pub record Tally : Type 0 where
  pub progress : List (GameKey × List ℕ)
  pub newly_valid : ℕ

-- A value of eleven bytes.
abbrev pub slots : Option (List ℕ) → Option (List ℕ)
slots none = none
slots (some pr) = if length pr == 11 then some pr else none

abbrev pub raised : List ℕ → ℕ → List ℕ
raised pr slot = set pr slot (suc (get_or pr slot 0))

-- One later game more credited.
abbrev pub credited : GameKey → List ℕ → Tally → Tally
credited key pr t =
    if get_or pr 10 0 == 0 && is_full pr
    then record {
      progress = insert game_eq key (set pr 10 1) t.progress;
      newly_valid = suc (t.newly_valid);
    }
    else record { progress = insert game_eq key pr t.progress; newly_valid = t.newly_valid }

-- Nothing where the slot is full, which ends the loop.
abbrev pub credit_step : GameKey → ℕ → Option (List ℕ) → Tally → Option Tally
credit_step key place none t = some t
credit_step key place (some pr) t =
    if leb history_required (get_or pr place 0)
    then none
    else some (credited key (raised pr place) t)

-- The loop over a player's later games.
unfoldable pub credit : String → List TlEntry → Tally → Tally
credit platform [] t = t
credit platform (e ∷ es) t =
    elim (credit_step (record { platform = platform; game_id = e.game_id }) e.place
      (slots (find game_eq (record { platform = platform; game_id = e.game_id }) t.progress)) t) [
        | none ↦ t
        | some t' ↦ credit platform es t'
      ]

unfoldable pub credit_players : String → ℕ → List (TlKey × TlEntry) → List ℕ → Tally → Tally
unfolding later credit
credit_players platform ts_ms tl [] t = t
credit_players platform ts_ms tl (pid ∷ pids) t =
    credit_players platform ts_ms tl pids (credit platform (later pid ts_ms tl) t)

abbrev pub plus : Option ℕ → ℕ → ℕ
plus none n = n
plus (some m) n = m + n

abbrev pub add_valid : String → ℕ → List (String × ℕ) → List (String × ℕ)
add_valid platform newly_valid totals =
    if ltb 0 newly_valid
    then insert str_eq platform (plus (find str_eq platform totals) newly_valid) totals
    else totals

abbrev pub settle : String → Tally → List (TlKey × TlEntry) → Store → Store
settle platform t tl s = record s {
  tl = tl;
  progress = t.progress;
  valid_samples = add_valid platform t.newly_valid s.valid_samples;
}

-- A sample-relevant game enters the tables.
unfoldable pub record_game : GameKey → List ℕ → ℕ → Store → Store
unfolding first_progress enter credit_players
record_game key pids ts_ms s =
    let pr = first_progress pids ts_ms s.tl in
    let tl = enter 0 key.game_id pids ts_ms s.tl in
    settle key.platform
      (credit_players key.platform ts_ms tl pids (record {
        progress = insert game_eq key pr s.progress;
        newly_valid = newly (is_full (fill 0 pids ts_ms s.tl (replicate 11 0)));
      }))
      tl s
