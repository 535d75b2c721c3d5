-- ===== src/Columnar/RoundTrip/Records.antt =====
-- The decoder reads back a record, and a block of records.
use lol_crawler.Prelude.{
  ◌≡◌, refl, sym, Bool, true, false, Option, none, some, [], ◌++◌, length, leb, arith, append_assoc,
  append-nil,
}
use lol_crawler.Prelude.Int.{ℤ, IsU64}
use lol_crawler.Prelude.Result.{ok, ensure}
use lol_crawler.Columnar.Error.{blue_won_range}
use lol_crawler.Record.{MatchRecord, IsRecord, TimelineLite, IsTimeline?}
use lol_crawler.Columnar.Varint.{Bytes}
use lol_crawler.Columnar.Delta.{delta_u64, delta_i64}
use lol_crawler.Columnar.Delta.Laws.{add_delta-delta_u64, add_delta-delta_i64}
use lol_crawler.Columnar.Stream
use lol_crawler.Columnar.Encode.{BlockState, from_bool}
use lol_crawler.Columnar.Proto.{
  fields, record_bytes, timeline_field, put_field_bytes-field, put_field_int64-field,
}
use lol_crawler.Columnar.Decode.{timeline_if, decode_timeline?, decode_record}
use lol_crawler.Columnar.Streams.Reads.{
  Reads, Reads-pure, Reads-lift, Reads-bind, Reads-last, Reads-rv, Reads-rz, Reads-rbytes,
}
use lol_crawler.Columnar.RoundTrip.Events.{
  timeline?_events, head_events, ban_list_events, body_events,
}
use lol_crawler.Columnar.RoundTrip.Parts.{
  Reads-eq, Reads-u32, Reads-usize, Reads-bans, Reads-participants, put_laws,
}
use lol_crawler.Columnar.RoundTrip.Timeline.{Reads-timeline}

from_bool-IsU64 : (b : Bool) → IsU64 (from_bool b)
from_bool-IsU64 true = omega arith
from_bool-IsU64 false = omega arith

abbrev pub after : MatchRecord → BlockState
after r = record { game_id = r.game_id; game_start_ms = r.game_start_ms }

Reads-timeline? :
    (t : Option TimelineLite) (out : Bytes)
    → IsTimeline? t
    → Reads (decode_timeline? out) (timeline?_events t) (out ++ timeline_field t)
unfolding decode_timeline? timeline_if timeline?_events timeline_field
Reads-timeline? none out h =
    Reads-last _ (Reads-rv Stream.tl_present 0 (omega arith) (omega arith))
      (Reads-bind _ (Reads-lift _ refl) (Reads-eq (sym (append-nil out)) (Reads-pure out)))
Reads-timeline? (some t) out h =
    Reads-bind _ (Reads-rv Stream.tl_present 1 (omega arith) (omega arith)) (
      Reads-bind _ (Reads-lift _ refl)
        (Reads-last _ (Reads-timeline t h) (Reads-eq (simp put_laws) (Reads-pure _))))

blue_won_ok : (b : Bool) → ensure (leb (from_bool b) 1) blue_won_range ≡ ok tt
blue_won_ok true = refl
blue_won_ok false = refl

pub Reads-record :
    (r : MatchRecord) (state : BlockState) (gid_d start_d : ℤ)
    → IsRecord r
    → delta_u64 r.game_id state.game_id ≡ ok gid_d
    → delta_i64 r.game_start_ms state.game_start_ms ≡ ok start_d
    → Reads
        (decode_record state)
        (head_events gid_d start_d r ++ (body_events r ++ ban_list_events r))
        (record_bytes r, after r)
unfolding decode_record head_events body_events ban_list_events record_bytes fields
Reads-record r state gid_d start_d h eg es =
    let (game_id, gid_fits) = add_delta-delta_u64 r.game_id state.game_id h.game_id eg in
    let (start, start_fits) =
      add_delta-delta_i64 r.game_start_ms state.game_start_ms h.game_start_ms es in
    Reads-bind _ (Reads-u32 Stream.schema r.schema_version (omega arith) h.schema_version) (
      Reads-bind _ (Reads-rz Stream.gid_d gid_d (omega arith) gid_fits) (
        Reads-bind _ (Reads-lift _ game_id) (
          Reads-bind _
            (Reads-usize Stream.plat_len (length r.platform) (omega arith) h.platform_len)
            (Reads-bind _ (Reads-rbytes Stream.plat r.platform (omega arith)) (
              Reads-bind _ (Reads-u32 Stream.queue r.queue_id (omega arith) h.queue_id) (
                Reads-bind _ (Reads-rz Stream.start_d start_d (omega arith) start_fits) (
                  Reads-bind _ (Reads-lift _ start) (
                    Reads-bind _ (Reads-u32 Stream.dur r.duration_s (omega arith) h.duration_s) (
                      Reads-bind _
                        (Reads-rv Stream.blue (from_bool r.blue_won) (omega arith)
                          (from_bool-IsU64 r.blue_won))
                        (Reads-bind _ (Reads-lift _ (blue_won_ok r.blue_won)) (
                          Reads-bind _
                            (Reads-usize Stream.gv_len (length r.game_version) (omega arith)
                              h.game_version_len)
                            (Reads-bind _ (Reads-rbytes Stream.gv r.game_version (omega arith)) (
                              Reads-bind _
                                (Reads-u32 Stream.pmaj r.patch_major (omega arith) h.patch_major)
                                (Reads-bind _
                                  (Reads-u32 Stream.pmin r.patch_minor (omega arith) h.patch_minor)
                                  (Reads-bind _
                                    (Reads-usize Stream.nparts (length r.participants) (omega arith)
                                      h.participants_len)
                                    (rw append_assoc (
                                      Reads-bind _
                                        (Reads-participants r.participants _ h.participants)
                                        (Reads-bind _ (Reads-timeline? r.timeline _ h.timeline) (
                                          Reads-bind _
                                            (Reads-usize Stream.bans_n (length r.bans) (omega arith)
                                              h.bans.0)
                                            (Reads-last _ (Reads-bans r.bans [] h.bans.1) (
                                              Reads-eq
                                                (simp (
                                                  put_field_bytes-field, put_field_int64-field,
                                                  put_laws,
                                                ))
                                                (Reads-pure _))))))))))))))))))))))
