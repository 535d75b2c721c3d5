-- ===== src/Columnar/RoundTrip/Written.antt =====
-- The encoder writes the events of each part.
use lol_crawler.Prelude.{
  ℕ, ◌+◌, ◌<◌, Option, none, some, List, [], ◌∷◌, ◌++◌, get_or, length, arith,
}
use lol_crawler.Prelude.Int.{ℤ, sub_ℕ}
use lol_crawler.Record.{
  MatchRecord, Participant, TimelineLite, MinuteFrame, KillEvent, ObjectiveEvent, WardEvent,
}
use lol_crawler.Columnar.Stream
use lol_crawler.Columnar.Stream.{nmisc}
use lol_crawler.Columnar.Delta.{zigzag_i64}
use lol_crawler.Columnar.Encode.{
  Series, series_of, no_series, from_bool, encode_bans, encode_runes, encode_stats,
  encode_participant, encode_participants, encode_values, encode_series, encode_frames,
  encode_kills, encode_objectives, encode_wards, encode_timeline, encode_timeline?, record_writer,
}
use lol_crawler.Columnar.Cols.{wz}
use lol_crawler.Columnar.Streams.{z_event}
use lol_crawler.Columnar.Streams.Writes.{
  Writes, Writes-wv, Writes-wbytes, Writes-rune, Writes-stat, Writes-id, ◌⨾◌,
}
use lol_crawler.Columnar.RoundTrip.Events.{
  bans_events, runes_events, stats_events, participant_events, participants_events, values_events,
  series_events, frame_events, frames_events, kill_events, kills_events, objective_events,
  objectives_events, ward_events, wards_events, timeline_events, timeline?_events, head_events,
  ban_list_events, body_events,
}

Writes-bans : (bs : List ℕ) → Writes (encode_bans bs) (bans_events bs)
unfolding encode_bans bans_events
Writes-bans [] = Writes-id
Writes-bans (b ∷ bs) = Writes-wv Stream.bans b (omega arith) ⨾ Writes-bans bs

Writes-runes : (idx : ℕ) (rs : List ℕ) → Writes (encode_runes idx rs) (runes_events idx rs)
unfolding encode_runes runes_events
Writes-runes idx [] = Writes-id
Writes-runes idx (r ∷ rs) = Writes-rune idx r ⨾ Writes-runes (idx + 1) rs

Writes-stats : (idx : ℕ) (ss : List ℤ) → Writes (encode_stats idx ss) (stats_events idx ss)
unfolding encode_stats stats_events
Writes-stats idx [] = Writes-id
Writes-stats idx (s ∷ ss) = Writes-stat idx s ⨾ Writes-stats (idx + 1) ss

Writes-participant : (p : Participant) → Writes (encode_participant p) (participant_events p)
unfolding encode_participant participant_events
Writes-participant p =
    Writes-wv Stream.p_player p.player_id (omega arith)
    ⨾ Writes-wv Stream.p_champ p.champion_id (omega arith)
    ⨾ Writes-wv Stream.p_pos p.position (omega arith)
    ⨾ Writes-wv Stream.p_sp1 p.spell1 (omega arith)
    ⨾ Writes-wv Stream.p_sp2 p.spell2 (omega arith)
    ⨾ Writes-wv Stream.p_runes_n (length p.runes) (omega arith)
    ⨾ Writes-runes 0 p.runes
    ⨾ Writes-wv Stream.p_stats_n (length p.stats) (omega arith)
    ⨾ Writes-stats 0 p.stats

Writes-participants :
    (ps : List Participant) → Writes (encode_participants ps) (participants_events ps)
unfolding encode_participants participants_events
Writes-participants [] = Writes-id
Writes-participants (p ∷ ps) = Writes-participant p ⨾ Writes-participants ps

Writes-wz : (col : ℕ) (v : ℤ) → col < nmisc → Writes (wz col v) (z_event col v ∷ [])
Writes-wz col v h = Writes-wv col (zigzag_i64 v) h

Writes-values :
    (v_col : ℕ) (prev : List ℕ) (slot : ℕ) (vs : List ℕ)
    → v_col < nmisc
    → Writes (encode_values v_col prev slot vs) (values_events v_col prev slot vs)
unfolding encode_values values_events
Writes-values v_col prev slot [] h = Writes-id
Writes-values v_col prev slot (v ∷ vs) h =
    Writes-wz v_col (sub_ℕ v (get_or prev slot 0)) h ⨾ Writes-values v_col prev (slot + 1) vs h

Writes-series :
    (n_col v_col : ℕ) (prev vs : List ℕ)
    → n_col < nmisc
    → v_col < nmisc
    → Writes (encode_series n_col v_col prev vs) (series_events n_col v_col prev vs)
unfolding encode_series series_events
Writes-series n_col v_col prev vs hn hv =
    Writes-wv n_col (length vs) hn ⨾ Writes-values v_col prev 0 vs hv

Writes-frames :
    (prev : Series) (fs : List MinuteFrame) → Writes (encode_frames prev fs) (frames_events prev fs)
unfolding encode_frames frames_events frame_events
Writes-frames prev [] = Writes-id
Writes-frames prev (f ∷ fs) =
    (Writes-wv Stream.f_minute f.minute (omega arith)
      ⨾ Writes-series Stream.f_gold_n Stream.f_gold prev.gold f.total_gold (omega arith)
          (omega arith)
      ⨾ Writes-series Stream.f_xp_n Stream.f_xp prev.xp f.xp (omega arith) (omega arith)
      ⨾ Writes-series Stream.f_cs_n Stream.f_cs prev.cs f.cs (omega arith) (omega arith)
      ⨾ Writes-series Stream.f_dmg_n Stream.f_dmg prev.dmg f.dmg_to_champs (omega arith)
          (omega arith))
    ⨾ Writes-frames (series_of f) fs

Writes-kills :
    (prev_t : ℕ) (ks : List KillEvent) → Writes (encode_kills prev_t ks) (kills_events prev_t ks)
unfolding encode_kills kills_events kill_events
Writes-kills prev_t [] = Writes-id
Writes-kills prev_t (k ∷ ks) =
    Writes-wz Stream.k_t (sub_ℕ k.t_s prev_t) (omega arith)
    ⨾ Writes-wv Stream.k_killer k.killer (omega arith)
    ⨾ Writes-wv Stream.k_victim k.victim (omega arith)
    ⨾ Writes-wv Stream.k_mask k.assist_mask (omega arith)
    ⨾ Writes-wv Stream.k_x k.x (omega arith)
    ⨾ Writes-wv Stream.k_y k.y (omega arith)
    ⨾ Writes-kills k.t_s ks

Writes-objectives :
    (prev_t : ℕ) (os : List ObjectiveEvent)
    → Writes (encode_objectives prev_t os) (objectives_events prev_t os)
unfolding encode_objectives objectives_events objective_events
Writes-objectives prev_t [] = Writes-id
Writes-objectives prev_t (o ∷ os) =
    Writes-wz Stream.o_t (sub_ℕ o.t_s prev_t) (omega arith)
    ⨾ Writes-wv Stream.o_kind o.kind (omega arith)
    ⨾ Writes-wv Stream.o_killer o.killer (omega arith)
    ⨾ Writes-wv Stream.o_team o.losing_team (omega arith)
    ⨾ Writes-wv Stream.o_lane o.lane (omega arith)
    ⨾ Writes-objectives o.t_s os

Writes-wards :
    (prev_t : ℕ) (ws : List WardEvent) → Writes (encode_wards prev_t ws) (wards_events prev_t ws)
unfolding encode_wards wards_events ward_events
Writes-wards prev_t [] = Writes-id
Writes-wards prev_t (w ∷ ws) =
    Writes-wz Stream.w_t (sub_ℕ w.t_s prev_t) (omega arith)
    ⨾ Writes-wv Stream.w_kind w.kind (omega arith)
    ⨾ Writes-wv Stream.w_part w.participant (omega arith)
    ⨾ Writes-wards w.t_s ws

Writes-timeline : (t : TimelineLite) → Writes (encode_timeline t) (timeline_events t)
unfolding encode_timeline timeline_events
Writes-timeline t =
    Writes-wv Stream.nframes (length t.frames) (omega arith)
    ⨾ Writes-frames no_series t.frames
    ⨾ Writes-wv Stream.nkills (length t.kills) (omega arith)
    ⨾ Writes-kills 0 t.kills
    ⨾ Writes-wv Stream.nobjs (length t.objectives) (omega arith)
    ⨾ Writes-objectives 0 t.objectives
    ⨾ Writes-wv Stream.nwards (length t.wards) (omega arith)
    ⨾ Writes-wards 0 t.wards

Writes-timeline? : (t : Option TimelineLite) → Writes (encode_timeline? t) (timeline?_events t)
unfolding encode_timeline? timeline?_events
Writes-timeline? none = Writes-wv Stream.tl_present 0 (omega arith)
Writes-timeline? (some t) = Writes-wv Stream.tl_present 1 (omega arith) ⨾ Writes-timeline t

-- The encoder's order: the bans stand between the head and the rest.
pub Writes-record :
    (r : MatchRecord) (gid_d start_d : ℤ)
    → Writes
        (record_writer gid_d start_d r)
        (head_events gid_d start_d r ++ (ban_list_events r ++ body_events r))
unfolding record_writer head_events ban_list_events body_events
Writes-record r gid_d start_d =
    Writes-wv Stream.schema r.schema_version (omega arith)
    ⨾ Writes-wz Stream.gid_d gid_d (omega arith)
    ⨾ Writes-wv Stream.plat_len (length r.platform) (omega arith)
    ⨾ Writes-wbytes Stream.plat r.platform (omega arith)
    ⨾ Writes-wv Stream.queue r.queue_id (omega arith)
    ⨾ Writes-wz Stream.start_d start_d (omega arith)
    ⨾ Writes-wv Stream.dur r.duration_s (omega arith)
    ⨾ Writes-wv Stream.blue (from_bool r.blue_won) (omega arith)
    ⨾ Writes-wv Stream.gv_len (length r.game_version) (omega arith)
    ⨾ Writes-wbytes Stream.gv r.game_version (omega arith)
    ⨾ Writes-wv Stream.pmaj r.patch_major (omega arith)
    ⨾ Writes-wv Stream.pmin r.patch_minor (omega arith)
    ⨾ Writes-wv Stream.bans_n (length r.bans) (omega arith)
    ⨾ Writes-bans r.bans
    ⨾ Writes-wv Stream.nparts (length r.participants) (omega arith)
    ⨾ Writes-participants r.participants
    ⨾ Writes-timeline? r.timeline
