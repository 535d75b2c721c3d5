-- ===== src/Columnar/RoundTrip/Block.antt =====
-- A block of records: what `encode_block` writes, `decode_block` reads back.
use lol_crawler.Prelude.{
  ◌≡◌, sym, ap, ◌∙◌, subst, List, [], ◌∷◌, ◌++◌, map, length, append_assoc, append-nil, All,
}
use lol_crawler.Prelude.Int.{ℤ}
use lol_crawler.Prelude.Result.{ok, bind_ok, ◌>>=◌}
use lol_crawler.Record.{MatchRecord, IsRecord}
use lol_crawler.Columnar.Error.{Try}
use lol_crawler.Columnar.Varint.{Bytes}
use lol_crawler.Columnar.Delta.{delta_u64, delta_i64}
use lol_crawler.Columnar.Stream.{nmisc}
use lol_crawler.Columnar.Cols.{Cols}
use lol_crawler.Columnar.Encode.{BlockState, encode_record, record_writer}
use lol_crawler.Columnar.Proto.{record_bytes}
use lol_crawler.Columnar.Block.{decode_records}
use lol_crawler.Columnar.Streams.{Col, Event, content, content-append}
use lol_crawler.Columnar.Streams.Writes.{stream}
use lol_crawler.Columnar.Streams.Reads.{Reads, Reads-pure, Reads-bind, Reads-Agree}
use lol_crawler.Columnar.RoundTrip.Events.{head_events, ban_list_events, body_events}
use lol_crawler.Columnar.RoundTrip.Parts.{Reads-eq}
use lol_crawler.Columnar.RoundTrip.Written.{Writes-record}
use lol_crawler.Columnar.RoundTrip.Records.{after, Reads-record}
use lol_crawler.Columnar.RoundTrip.Order.{bans_last}

-- `encode_record` for each record in turn: `encode_records` behind prost.
unfoldable pub encode_all : List MatchRecord → Cols → BlockState → Try (Cols × BlockState)
encode_all [] cols state = ok (cols, state)
encode_all (r ∷ rs) cols state = do
  (cols', state') ← encode_record r cols state
  encode_all rs cols' state'

-- Between two states of the columns the events were appended.
pub record Appended (cols cols' : Cols) (es : List Event) : Type 0 where
  pub size : length cols'.fixed ≡ nmisc
  pub each : (c : Col) → stream cols' c ≡ stream cols c ++ content c es

-- The events of a block: they are what the encoder appends and what the decoder reads.
abbrev pub BlockEvents : List MatchRecord → Cols → Cols → BlockState → Type 0
BlockEvents rs cols cols' state =
    (es : List Event) × Appended cols cols' es
    × ((out : List Bytes)
        → Reads (decode_records (length rs) state out) es (out ++ map record_bytes rs))

pub record_parts :
    (r : MatchRecord) (cols : Cols) (state : BlockState) {cols' : Cols} {state' : BlockState}
    → encode_record r cols state ≡ ok (cols', state')
    → (gid_d : ℤ) × (start_d : ℤ) × (delta_u64 r.game_id state.game_id ≡ ok gid_d)
      × (delta_i64 r.game_start_ms state.game_start_ms ≡ ok start_d)
      × (cols' ≡ record_writer gid_d start_d r cols)
      × (state' ≡ after r)
unfolding encode_record
record_parts r cols state e =
    let (gid_d, eg, e1) = bind_ok (delta_u64 r.game_id state.game_id) _ e in
    let (start_d, es, e2) = bind_ok (delta_i64 r.game_start_ms state.game_start_ms) _ e1 in
    (gid_d, start_d, eg, es, cc e2, cc e2)

BlockEvents-cons :
    (r : MatchRecord) (rs : List MatchRecord) (cols : Cols) (state : BlockState) {cols' : Cols}
    (gid_d start_d : ℤ)
    → IsRecord r
    → delta_u64 r.game_id state.game_id ≡ ok gid_d
    → delta_i64 r.game_start_ms state.game_start_ms ≡ ok start_d
    → length cols.fixed ≡ nmisc
    → BlockEvents rs (record_writer gid_d start_d r cols) cols' (after r)
    → BlockEvents (r ∷ rs) cols cols' state
unfolding decode_records
BlockEvents-cons r rs cols state gid_d start_d h eg es size (events, appended, reads) = (
  here ++ events,
  record {
    size = appended.size;
    each = λ c.
        appended.each c
        ∙ ap (λ t. t ++ content c events) ((Writes-record r gid_d start_d).run cols size c)
        ∙ append_assoc (stream cols c) (content c here) (content c events)
        ∙ ap (λ t. stream cols c ++ t) (sym (content-append c here events));
  },
  λ out.
      Reads-bind _
        (Reads-Agree (bans_last gid_d start_d r) (Reads-record r state gid_d start_d h eg es))
        (Reads-eq (append_assoc out (record_bytes r ∷ []) _)
          (reads (out ++ (record_bytes r ∷ [])))),
)
  where
    here : List Event
    here = head_events gid_d start_d r ++ (ban_list_events r ++ body_events r)

pub encode_all-events :
    (rs : List MatchRecord) (cols : Cols) (state : BlockState) {cols' : Cols} {state' : BlockState}
    → All IsRecord rs
    → length cols.fixed ≡ nmisc
    → encode_all rs cols state ≡ ok (cols', state')
    → BlockEvents rs cols cols' state
unfolding encode_all decode_records
encode_all-events [] cols state h size e = (
  [],
  subst (λ t. Appended cols t []) (cc e) (record { size = size; each = λ c. sym (append-nil _) }),
  λ out. Reads-eq (sym (append-nil out)) (Reads-pure out),
)
encode_all-events (r ∷ rs) cols state {cols'} {state'} h size e =
    let ((cols1, state1), e1, rest) = bind_ok (encode_record r cols state) _ e in
    let (gid_d, start_d, eg, es, ec, et) = record_parts r cols state e1 in
    let kept : length cols1.fixed ≡ nmisc =
      ap (λ c. length c.fixed) ec ∙ (Writes-record r gid_d start_d).size cols size in
    BlockEvents-cons r rs cols state gid_d start_d h.0 eg es size (
      subst (λ c. BlockEvents rs c cols' (after r)) ec
        (subst (λ t. BlockEvents rs cols1 cols' t) et
          (encode_all-events rs cols1 state1 h.1 kept rest)))
