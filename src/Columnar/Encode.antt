-- ===== src/Columnar/Encode.antt =====
-- `encode_record`, `encode_timeline` and `encode_payload` of crates/server/src/columnar.rs.
use lol_crawler.Prelude.{
  ℕ, ◌+◌, Bool, true, false, Option, none, some, List, [], ◌∷◌, get_or, length,
}
use lol_crawler.Prelude.Int.{ℤ, sub_ℕ, pos}
use lol_crawler.Prelude.Result.{ok, ◌>>=◌}
use lol_crawler.Record.{
  MatchRecord, Participant, TimelineLite, MinuteFrame, KillEvent, ObjectiveEvent, WardEvent,
}
use lol_crawler.Columnar.Error.{Try}
use lol_crawler.Columnar.Delta.{delta_u64, delta_i64}
use lol_crawler.Columnar.Stream
use lol_crawler.Columnar.Cols.{Cols, wv, wz, wbytes, rune_v, stat_z, ◌▷◌}

pub record BlockState : Type 0 where
  pub game_id : ℕ
  pub game_start_ms : ℤ

-- `BlockState::default`.
abbrev pub start_state : BlockState
start_state = record { game_id = 0; game_start_ms = pos 0 }

-- `u64::from` on a bool.
abbrev pub from_bool : Bool → ℕ
from_bool true = 1
from_bool false = 0

unfoldable pub encode_bans : List ℕ → Cols → Cols
encode_bans [] cols = cols
encode_bans (ban ∷ bans) cols = encode_bans bans (cols ▷ wv Stream.bans ban)

unfoldable pub encode_runes : ℕ → List ℕ → Cols → Cols
encode_runes idx [] cols = cols
encode_runes idx (rune ∷ runes) cols = encode_runes (idx + 1) runes (cols ▷ rune_v idx rune)

unfoldable pub encode_stats : ℕ → List ℤ → Cols → Cols
encode_stats idx [] cols = cols
encode_stats idx (stat ∷ stats) cols = encode_stats (idx + 1) stats (cols ▷ stat_z idx stat)

unfoldable pub encode_participant : Participant → Cols → Cols
encode_participant p cols =
    cols
    ▷ wv Stream.p_player p.player_id
    ▷ wv Stream.p_champ p.champion_id
    ▷ wv Stream.p_pos p.position
    ▷ wv Stream.p_sp1 p.spell1
    ▷ wv Stream.p_sp2 p.spell2
    ▷ wv Stream.p_runes_n (length p.runes)
    ▷ encode_runes 0 p.runes
    ▷ wv Stream.p_stats_n (length p.stats)
    ▷ encode_stats 0 p.stats

unfoldable pub encode_participants : List Participant → Cols → Cols
encode_participants [] cols = cols
encode_participants (p ∷ ps) cols = encode_participants ps (cols ▷ encode_participant p)

-- `prev_series`: the four vectors of the frame before.
pub record Series : Type 0 where
  pub gold : List ℕ
  pub xp : List ℕ
  pub cs : List ℕ
  pub dmg : List ℕ

abbrev pub no_series : Series
no_series = record { gold = []; xp = []; cs = []; dmg = [] }

abbrev pub series_of : MinuteFrame → Series
series_of f = record { gold = f.total_gold; xp = f.xp; cs = f.cs; dmg = f.dmg_to_champs }

unfoldable pub encode_values : ℕ → List ℕ → ℕ → List ℕ → Cols → Cols
encode_values v_col prev slot [] cols = cols
encode_values v_col prev slot (value ∷ values) cols =
    encode_values v_col prev (slot + 1) values (cols ▷ wz v_col (sub_ℕ value (get_or prev slot 0)))

unfoldable pub encode_series : ℕ → ℕ → List ℕ → List ℕ → Cols → Cols
encode_series n_col v_col prev values cols =
    cols ▷ wv n_col (length values) ▷ encode_values v_col prev 0 values

unfoldable pub encode_frames : Series → List MinuteFrame → Cols → Cols
encode_frames prev [] cols = cols
encode_frames prev (f ∷ fs) cols = encode_frames (series_of f) fs (
    cols
    ▷ wv Stream.f_minute f.minute
    ▷ encode_series Stream.f_gold_n Stream.f_gold prev.gold f.total_gold
    ▷ encode_series Stream.f_xp_n Stream.f_xp prev.xp f.xp
    ▷ encode_series Stream.f_cs_n Stream.f_cs prev.cs f.cs
    ▷ encode_series Stream.f_dmg_n Stream.f_dmg prev.dmg f.dmg_to_champs)

unfoldable pub encode_kills : ℕ → List KillEvent → Cols → Cols
encode_kills prev_t [] cols = cols
encode_kills prev_t (k ∷ ks) cols = encode_kills k.t_s ks (
    cols
    ▷ wz Stream.k_t (sub_ℕ k.t_s prev_t)
    ▷ wv Stream.k_killer k.killer
    ▷ wv Stream.k_victim k.victim
    ▷ wv Stream.k_mask k.assist_mask
    ▷ wv Stream.k_x k.x
    ▷ wv Stream.k_y k.y)

unfoldable pub encode_objectives : ℕ → List ObjectiveEvent → Cols → Cols
encode_objectives prev_t [] cols = cols
encode_objectives prev_t (o ∷ os) cols = encode_objectives o.t_s os (
    cols
    ▷ wz Stream.o_t (sub_ℕ o.t_s prev_t)
    ▷ wv Stream.o_kind o.kind
    ▷ wv Stream.o_killer o.killer
    ▷ wv Stream.o_team o.losing_team
    ▷ wv Stream.o_lane o.lane)

unfoldable pub encode_wards : ℕ → List WardEvent → Cols → Cols
encode_wards prev_t [] cols = cols
encode_wards prev_t (w ∷ ws) cols = encode_wards w.t_s ws (
    cols
    ▷ wz Stream.w_t (sub_ℕ w.t_s prev_t)
    ▷ wv Stream.w_kind w.kind
    ▷ wv Stream.w_part w.participant)

unfoldable pub encode_timeline : TimelineLite → Cols → Cols
encode_timeline t cols =
    cols
    ▷ wv Stream.nframes (length t.frames)
    ▷ encode_frames no_series t.frames
    ▷ wv Stream.nkills (length t.kills)
    ▷ encode_kills 0 t.kills
    ▷ wv Stream.nobjs (length t.objectives)
    ▷ encode_objectives 0 t.objectives
    ▷ wv Stream.nwards (length t.wards)
    ▷ encode_wards 0 t.wards

unfoldable pub encode_timeline? : Option TimelineLite → Cols → Cols
encode_timeline? none cols = cols ▷ wv Stream.tl_present 0
encode_timeline? (some t) cols = cols ▷ wv Stream.tl_present 1 ▷ encode_timeline t

-- The writes of `encode_record`, with the two deltas that it computes.
unfoldable pub record_writer : ℤ → ℤ → MatchRecord → Cols → Cols
record_writer gid_d start_d r cols =
    cols
    ▷ wv Stream.schema r.schema_version
    ▷ wz Stream.gid_d gid_d
    ▷ wv Stream.plat_len (length r.platform)
    ▷ wbytes Stream.plat r.platform
    ▷ wv Stream.queue r.queue_id
    ▷ wz Stream.start_d start_d
    ▷ wv Stream.dur r.duration_s
    ▷ wv Stream.blue (from_bool r.blue_won)
    ▷ wv Stream.gv_len (length r.game_version)
    ▷ wbytes Stream.gv r.game_version
    ▷ wv Stream.pmaj r.patch_major
    ▷ wv Stream.pmin r.patch_minor
    ▷ wv Stream.bans_n (length r.bans)
    ▷ encode_bans r.bans
    ▷ wv Stream.nparts (length r.participants)
    ▷ encode_participants r.participants
    ▷ encode_timeline? r.timeline

-- The two deltas are the calls that can fail; a failure drops the columns.
unfoldable pub encode_record : MatchRecord → Cols → BlockState → Try (Cols × BlockState)
encode_record r cols state = do
  gid_d ← delta_u64 r.game_id state.game_id
  start_d ← delta_i64 r.game_start_ms state.game_start_ms
  ok (
    record_writer gid_d start_d r cols,
    record { game_id = r.game_id; game_start_ms = r.game_start_ms },
  )
