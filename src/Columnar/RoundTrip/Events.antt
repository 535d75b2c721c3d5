-- ===== src/Columnar/RoundTrip/Events.antt =====
-- The events of a record's parts, in the order in which the decoder reads them.
use lol_crawler.Prelude.{ℕ, ◌+◌, Option, none, some, List, [], ◌∷◌, ◌++◌, get_or, length}
use lol_crawler.Prelude.Int.{ℤ, sub_ℕ}
use lol_crawler.Record.{
  MatchRecord, Participant, TimelineLite, MinuteFrame, KillEvent, ObjectiveEvent, WardEvent,
}
use lol_crawler.Columnar.Varint.{varint}
use lol_crawler.Columnar.Delta.{zigzag_i64}
use lol_crawler.Columnar.Stream
use lol_crawler.Columnar.Encode.{Series, series_of, no_series, from_bool}
use lol_crawler.Columnar.Streams.{Event, stat, rune, v_event, z_event, bytes_event}

unfoldable pub bans_events : List ℕ → List Event
bans_events [] = []
bans_events (b ∷ bs) = v_event Stream.bans b ∷ bans_events bs

unfoldable pub runes_events : ℕ → List ℕ → List Event
runes_events idx [] = []
runes_events idx (r ∷ rs) = (rune idx, varint r) ∷ runes_events (idx + 1) rs

unfoldable pub stats_events : ℕ → List ℤ → List Event
stats_events idx [] = []
stats_events idx (s ∷ ss) = (stat idx, varint (zigzag_i64 s)) ∷ stats_events (idx + 1) ss

unfoldable pub participant_events : Participant → List Event
participant_events p =
    v_event Stream.p_player p.player_id
    ∷ v_event Stream.p_champ p.champion_id
    ∷ v_event Stream.p_pos p.position
    ∷ v_event Stream.p_sp1 p.spell1
    ∷ v_event Stream.p_sp2 p.spell2
    ∷ v_event Stream.p_runes_n (length p.runes)
    ∷ (runes_events 0 p.runes
        ++ (v_event Stream.p_stats_n (length p.stats) ∷ stats_events 0 p.stats))

unfoldable pub participants_events : List Participant → List Event
participants_events [] = []
participants_events (p ∷ ps) = participant_events p ++ participants_events ps

unfoldable pub values_events : ℕ → List ℕ → ℕ → List ℕ → List Event
values_events v_col prev slot [] = []
values_events v_col prev slot (v ∷ vs) =
    z_event v_col (sub_ℕ v (get_or prev slot 0)) ∷ values_events v_col prev (slot + 1) vs

unfoldable pub series_events : ℕ → ℕ → List ℕ → List ℕ → List Event
series_events n_col v_col prev vs = v_event n_col (length vs) ∷ values_events v_col prev 0 vs

unfoldable pub frame_events : Series → MinuteFrame → List Event
frame_events prev f =
    v_event Stream.f_minute f.minute
    ∷ (series_events Stream.f_gold_n Stream.f_gold prev.gold f.total_gold
        ++ (series_events Stream.f_xp_n Stream.f_xp prev.xp f.xp
            ++ (series_events Stream.f_cs_n Stream.f_cs prev.cs f.cs
                ++ series_events Stream.f_dmg_n Stream.f_dmg prev.dmg f.dmg_to_champs)))

unfoldable pub frames_events : Series → List MinuteFrame → List Event
frames_events prev [] = []
frames_events prev (f ∷ fs) = frame_events prev f ++ frames_events (series_of f) fs

unfoldable pub kill_events : ℕ → KillEvent → List Event
kill_events prev_t k =
    z_event Stream.k_t (sub_ℕ k.t_s prev_t)
    ∷ v_event Stream.k_killer k.killer
    ∷ v_event Stream.k_victim k.victim
    ∷ v_event Stream.k_mask k.assist_mask
    ∷ v_event Stream.k_x k.x
    ∷ v_event Stream.k_y k.y
    ∷ []

unfoldable pub kills_events : ℕ → List KillEvent → List Event
kills_events prev_t [] = []
kills_events prev_t (k ∷ ks) = kill_events prev_t k ++ kills_events k.t_s ks

unfoldable pub objective_events : ℕ → ObjectiveEvent → List Event
objective_events prev_t o =
    z_event Stream.o_t (sub_ℕ o.t_s prev_t)
    ∷ v_event Stream.o_kind o.kind
    ∷ v_event Stream.o_killer o.killer
    ∷ v_event Stream.o_team o.losing_team
    ∷ v_event Stream.o_lane o.lane
    ∷ []

unfoldable pub objectives_events : ℕ → List ObjectiveEvent → List Event
objectives_events prev_t [] = []
objectives_events prev_t (o ∷ os) = objective_events prev_t o ++ objectives_events o.t_s os

unfoldable pub ward_events : ℕ → WardEvent → List Event
ward_events prev_t w =
    z_event Stream.w_t (sub_ℕ w.t_s prev_t)
    ∷ v_event Stream.w_kind w.kind
    ∷ v_event Stream.w_part w.participant
    ∷ []

unfoldable pub wards_events : ℕ → List WardEvent → List Event
wards_events prev_t [] = []
wards_events prev_t (w ∷ ws) = ward_events prev_t w ++ wards_events w.t_s ws

unfoldable pub timeline_events : TimelineLite → List Event
timeline_events t =
    v_event Stream.nframes (length t.frames)
    ∷ (frames_events no_series t.frames
        ++ (v_event Stream.nkills (length t.kills)
            ∷ (kills_events 0 t.kills
                ++ (v_event Stream.nobjs (length t.objectives)
                    ∷ (objectives_events 0 t.objectives
                        ++ (v_event Stream.nwards (length t.wards) ∷ wards_events 0 t.wards))))))

unfoldable pub timeline?_events : Option TimelineLite → List Event
timeline?_events none = v_event Stream.tl_present 0 ∷ []
timeline?_events (some t) = v_event Stream.tl_present 1 ∷ timeline_events t

-- What comes before the bans, the bans, and what comes behind them in the encoder. The deltas are
-- those of the two fields that are stored against the record before.
unfoldable pub head_events : ℤ → ℤ → MatchRecord → List Event
head_events gid_d start_d r =
    v_event Stream.schema r.schema_version
    ∷ z_event Stream.gid_d gid_d
    ∷ v_event Stream.plat_len (length r.platform)
    ∷ bytes_event Stream.plat r.platform
    ∷ v_event Stream.queue r.queue_id
    ∷ z_event Stream.start_d start_d
    ∷ v_event Stream.dur r.duration_s
    ∷ v_event Stream.blue (from_bool r.blue_won)
    ∷ v_event Stream.gv_len (length r.game_version)
    ∷ bytes_event Stream.gv r.game_version
    ∷ v_event Stream.pmaj r.patch_major
    ∷ v_event Stream.pmin r.patch_minor
    ∷ []

unfoldable pub ban_list_events : MatchRecord → List Event
ban_list_events r = v_event Stream.bans_n (length r.bans) ∷ bans_events r.bans

unfoldable pub body_events : MatchRecord → List Event
body_events r =
    v_event Stream.nparts (length r.participants)
    ∷ (participants_events r.participants ++ timeline?_events r.timeline)
