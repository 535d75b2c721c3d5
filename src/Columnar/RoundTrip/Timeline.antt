-- ===== src/Columnar/RoundTrip/Timeline.antt =====
-- The decoder reads back the timeline, as its protobuf bytes.
use lol_crawler.Prelude.{
  ℕ, zero, suc, ◌+◌, ◌<◌, sym, List, [], ◌∷◌, ◌++◌, get_or, length, arith, All, append_assoc,
  append-nil,
}
use lol_crawler.Prelude.Int.{IsU32}
use lol_crawler.Record.{
  MinuteFrame, KillEvent, ObjectiveEvent, WardEvent, TimelineLite, IsFrame, IsKill, IsObjective,
  IsWard, IsTimeline, IsSeries,
}
use lol_crawler.Columnar.Varint.{Bytes}
use lol_crawler.Columnar.Varint.RoundTrip.{write_varint-varint}
use lol_crawler.Columnar.Stream
use lol_crawler.Columnar.Stream.{nmisc}
use lol_crawler.Columnar.Encode.{Series, no_series, series_of}
use lol_crawler.Columnar.Proto.{
  fields, repeated, packed_u32, frame_bytes, kill_bytes, objective_bytes, ward_bytes,
  timeline_bytes,
}
use lol_crawler.Columnar.Decode.{
  decode_values, decode_series, decode_frame, decode_frames, decode_kill, decode_kills,
  decode_objective, decode_objectives, decode_ward, decode_wards, decode_timeline,
}
use lol_crawler.Columnar.Streams.Reads.{Reads, Reads-pure, Reads-bind, Reads-last}
use lol_crawler.Columnar.RoundTrip.Events.{
  values_events, series_events, frame_events, frames_events, kill_events, kills_events,
  objective_events, objectives_events, ward_events, wards_events, timeline_events,
}
use lol_crawler.Columnar.RoundTrip.Parts.{
  Reads-eq, Reads-u32, Reads-usize, Reads-delta_u32, put_laws,
}

get_or-IsU32 : (prev : List ℕ) (slot : ℕ) → All IsU32 prev → IsU32 (get_or prev slot 0)
get_or-IsU32 [] slot h = omega arith
get_or-IsU32 (x ∷ xs) zero h = h.0
get_or-IsU32 (x ∷ xs) (suc slot) h = get_or-IsU32 xs slot h.1

Reads-values :
    (v_col : ℕ) (prev vs : List ℕ) (slot : ℕ) (packed : Bytes) (values : List ℕ)
    → v_col < nmisc
    → All IsU32 prev
    → All IsU32 vs
    → Reads
        (decode_values v_col prev (length vs) slot packed values)
        (values_events v_col prev slot vs)
        (packed ++ packed_u32 vs, values ++ vs)
unfolding decode_values values_events packed_u32
Reads-values v_col prev [] slot packed values c hp h =
    Reads-eq (simp append-nil) (Reads-pure (packed, values))
Reads-values v_col prev (v ∷ vs) slot packed values c hp h =
    Reads-bind _ (Reads-delta_u32 v_col v (get_or prev slot 0) c h.0 (get_or-IsU32 prev slot hp)) (
      Reads-eq (simp (write_varint-varint, append_assoc))
        (Reads-values v_col prev vs (slot + 1) _ _ c hp h.1))

Reads-series :
    (n_col v_col : ℕ) (prev vs : List ℕ)
    → n_col < nmisc
    → v_col < nmisc
    → All IsU32 prev
    → IsSeries vs
    → Reads (decode_series n_col v_col prev) (series_events n_col v_col prev vs) (packed_u32 vs, vs)
unfolding decode_series series_events
Reads-series n_col v_col prev vs cn cv hp h =
    Reads-bind _ (Reads-usize n_col (length vs) cn h.0)
      (Reads-values v_col prev vs 0 [] [] cv hp h.1)

-- The vectors of the frame before are vectors of u32.
record IsPrevious (s : Series) : Type 0 where
  gold : All IsU32 s.gold
  xp : All IsU32 s.xp
  cs : All IsU32 s.cs
  dmg : All IsU32 s.dmg

series_of-IsPrevious : (f : MinuteFrame) → IsFrame f → IsPrevious (series_of f)
series_of-IsPrevious f h = record {
  gold = h.total_gold.1;
  xp = h.xp.1;
  cs = h.cs.1;
  dmg = h.dmg_to_champs.1;
}

Reads-frame :
    (prev : Series) (f : MinuteFrame)
    → IsPrevious prev
    → IsFrame f
    → Reads (decode_frame prev) (frame_events prev f) (frame_bytes f, series_of f)
unfolding decode_frame frame_events frame_bytes fields
Reads-frame prev f k h = Reads-bind _ (Reads-u32 Stream.f_minute f.minute (omega arith) h.minute) (
    Reads-bind _
      (Reads-series Stream.f_gold_n Stream.f_gold prev.gold f.total_gold (omega arith) (omega arith)
        k.gold h.total_gold)
      (Reads-bind _
        (Reads-series Stream.f_xp_n Stream.f_xp prev.xp f.xp (omega arith) (omega arith) k.xp h.xp)
        (Reads-bind _
          (Reads-series Stream.f_cs_n Stream.f_cs prev.cs f.cs (omega arith) (omega arith) k.cs
            h.cs)
          (Reads-last _
            (Reads-series Stream.f_dmg_n Stream.f_dmg prev.dmg f.dmg_to_champs (omega arith)
              (omega arith) k.dmg h.dmg_to_champs)
            (Reads-eq (simp put_laws) (Reads-pure _))))))

Reads-frames :
    (fs : List MinuteFrame) (prev : Series) (out : Bytes)
    → IsPrevious prev
    → All IsFrame fs
    → Reads
        (decode_frames (length fs) prev out)
        (frames_events prev fs)
        (out ++ repeated 1 frame_bytes fs)
unfolding decode_frames frames_events repeated
Reads-frames [] prev out k h = Reads-eq (sym (append-nil out)) (Reads-pure out)
Reads-frames (f ∷ fs) prev out k h =
    Reads-bind _ (Reads-frame prev f k h.0)
      (Reads-eq (simp put_laws) (Reads-frames fs (series_of f) _ (series_of-IsPrevious f h.0) h.1))

Reads-kill :
    (e : KillEvent) (prev_t : ℕ)
    → IsU32 prev_t
    → IsKill e
    → Reads (decode_kill prev_t) (kill_events prev_t e) (kill_bytes e, e.t_s)
unfolding decode_kill kill_events kill_bytes fields
Reads-kill e prev_t k h =
    Reads-bind _ (Reads-delta_u32 Stream.k_t e.t_s prev_t (omega arith) h.t_s k) (
      Reads-bind _ (Reads-u32 Stream.k_killer e.killer (omega arith) h.killer) (
        Reads-bind _ (Reads-u32 Stream.k_victim e.victim (omega arith) h.victim) (
          Reads-bind _ (Reads-u32 Stream.k_mask e.assist_mask (omega arith) h.assist_mask) (
            Reads-bind _ (Reads-u32 Stream.k_x e.x (omega arith) h.x) (
              Reads-last _ (Reads-u32 Stream.k_y e.y (omega arith) h.y)
                (Reads-eq (simp put_laws) (Reads-pure _)))))))

Reads-kills :
    (ks : List KillEvent) (prev_t : ℕ) (out : Bytes)
    → IsU32 prev_t
    → All IsKill ks
    → Reads
        (decode_kills (length ks) prev_t out)
        (kills_events prev_t ks)
        (out ++ repeated 2 kill_bytes ks)
unfolding decode_kills kills_events repeated
Reads-kills [] prev_t out k h = Reads-eq (sym (append-nil out)) (Reads-pure out)
Reads-kills (e ∷ ks) prev_t out k h =
    Reads-bind _ (Reads-kill e prev_t k h.0)
      (Reads-eq (simp put_laws) (Reads-kills ks e.t_s _ h.0.t_s h.1))

Reads-objective :
    (o : ObjectiveEvent) (prev_t : ℕ)
    → IsU32 prev_t
    → IsObjective o
    → Reads (decode_objective prev_t) (objective_events prev_t o) (objective_bytes o, o.t_s)
unfolding decode_objective objective_events objective_bytes fields
Reads-objective o prev_t k h =
    Reads-bind _ (Reads-delta_u32 Stream.o_t o.t_s prev_t (omega arith) h.t_s k) (
      Reads-bind _ (Reads-u32 Stream.o_kind o.kind (omega arith) h.kind) (
        Reads-bind _ (Reads-u32 Stream.o_killer o.killer (omega arith) h.killer) (
          Reads-bind _ (Reads-u32 Stream.o_team o.losing_team (omega arith) h.losing_team) (
            Reads-last _ (Reads-u32 Stream.o_lane o.lane (omega arith) h.lane)
              (Reads-eq (simp put_laws) (Reads-pure _))))))

Reads-objectives :
    (os : List ObjectiveEvent) (prev_t : ℕ) (out : Bytes)
    → IsU32 prev_t
    → All IsObjective os
    → Reads
        (decode_objectives (length os) prev_t out)
        (objectives_events prev_t os)
        (out ++ repeated 3 objective_bytes os)
unfolding decode_objectives objectives_events repeated
Reads-objectives [] prev_t out k h = Reads-eq (sym (append-nil out)) (Reads-pure out)
Reads-objectives (o ∷ os) prev_t out k h =
    Reads-bind _ (Reads-objective o prev_t k h.0)
      (Reads-eq (simp put_laws) (Reads-objectives os o.t_s _ h.0.t_s h.1))

Reads-ward :
    (w : WardEvent) (prev_t : ℕ)
    → IsU32 prev_t
    → IsWard w
    → Reads (decode_ward prev_t) (ward_events prev_t w) (ward_bytes w, w.t_s)
unfolding decode_ward ward_events ward_bytes fields
Reads-ward w prev_t k h =
    Reads-bind _ (Reads-delta_u32 Stream.w_t w.t_s prev_t (omega arith) h.t_s k) (
      Reads-bind _ (Reads-u32 Stream.w_kind w.kind (omega arith) h.kind) (
        Reads-last _ (Reads-u32 Stream.w_part w.participant (omega arith) h.participant)
          (Reads-eq (simp put_laws) (Reads-pure _))))

Reads-wards :
    (ws : List WardEvent) (prev_t : ℕ) (out : Bytes)
    → IsU32 prev_t
    → All IsWard ws
    → Reads
        (decode_wards (length ws) prev_t out)
        (wards_events prev_t ws)
        (out ++ repeated 4 ward_bytes ws)
unfolding decode_wards wards_events repeated
Reads-wards [] prev_t out k h = Reads-eq (sym (append-nil out)) (Reads-pure out)
Reads-wards (w ∷ ws) prev_t out k h =
    Reads-bind _ (Reads-ward w prev_t k h.0)
      (Reads-eq (simp put_laws) (Reads-wards ws w.t_s _ h.0.t_s h.1))

pub Reads-timeline :
    (t : TimelineLite) → IsTimeline t → Reads decode_timeline (timeline_events t) (timeline_bytes t)
unfolding decode_timeline timeline_events timeline_bytes
Reads-timeline t h =
    Reads-bind _ (Reads-usize Stream.nframes (length t.frames) (omega arith) h.frames_len) (
      Reads-bind _ (Reads-frames t.frames no_series [] none_before h.frames) (
        Reads-bind _ (Reads-usize Stream.nkills (length t.kills) (omega arith) h.kills_len) (
          Reads-bind _ (Reads-kills t.kills 0 _ (omega arith) h.kills) (
            Reads-bind _
              (Reads-usize Stream.nobjs (length t.objectives) (omega arith) h.objectives_len)
              (Reads-bind _ (Reads-objectives t.objectives 0 _ (omega arith) h.objectives) (
                Reads-bind _ (Reads-usize Stream.nwards (length t.wards) (omega arith) h.wards_len)
                  (Reads-eq (simp append_assoc)
                    (Reads-wards t.wards 0 _ (omega arith) h.wards))))))))
  where
    none_before : IsPrevious no_series
    none_before = record { gold = tt; xp = tt; cs = tt; dmg = tt }
