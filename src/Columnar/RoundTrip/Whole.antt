-- ===== src/Columnar/RoundTrip/Whole.antt =====
-- `encode_block` and `decode_block` of crates/server/src/columnar.rs, on whole blocks.
use lol_crawler.Prelude.{
  ℕ, suc, ◌<◌, ◌^◌, subst, ◌≡◌, refl, sym, ap, ◌∙◌, Bool, true, false, List, [], ◌∷◌, ◌++◌, map,
  length, append-nil, arith, All, ◌==◌, ==_self, ==_iff,
}
use lol_crawler.Prelude.Int.{ℤ, pos, sub_ℕ, ◌-ℤ◌, IsU64}
use lol_crawler.Prelude.Result.{ok, ensure, bind_ok, ◌>>=◌}
use mathlib.Core.Path.{fun_ext}
use lol_crawler.Columnar.Delta.{delta_u64, delta_i64}
use lol_crawler.Columnar.Delta.Laws.{delta_u64-ok, delta_i64-ok}
use lol_crawler.Columnar.RoundTrip.Records.{after}
use lol_crawler.Record.{MatchRecord, IsRecord}
use lol_crawler.Columnar.Error.{Try, self_check}
use lol_crawler.Columnar.Varint.{Bytes}
use lol_crawler.Columnar.Stream.{nmisc}
use lol_crawler.Columnar.Cols.{Cols}
use lol_crawler.Columnar.Cols
use lol_crawler.Columnar.Encode.{BlockState, start_state, encode_record, record_writer}
use lol_crawler.Columnar.Proto.{record_bytes}
use lol_crawler.Columnar.Payload.{bytes_eq, encode_payload}
use lol_crawler.Columnar.Block.{
  decode_records, decode_block, encode_records, encode_block, all_equal,
}
use lol_crawler.Columnar.Streams.{Col, fixed, stat, rune, Event, content}
use lol_crawler.Columnar.Streams.Writes.{stream, get_or-replicate}
use lol_crawler.Columnar.Streams.Reads.{Reads}
use lol_crawler.Columnar.RoundTrip.Payload.{layout, encode_payload-layout, layout-Bounds}
use lol_crawler.Columnar.RoundTrip.Manifest.{parse-layout}
use lol_crawler.Columnar.RoundTrip.Block.{encode_all, encode_all-events}
use lol_crawler.Columnar.RoundTrip.Start.{
  first_readers, new-streams, Holds-first, ensure_done-Holds,
}

stream-new : (c : Col) → stream Cols.new c ≡ []
stream-new (fixed i) = get_or-replicate nmisc i
stream-new (stat i) = refl
stream-new (rune i) = refl

decode_block-run :
    (n : ℕ) (cols : Cols) (es : List Event) (out : List Bytes)
    → length cols.fixed ≡ nmisc
    → ((c : Col) → stream cols c ≡ content c es)
    → IsU64 n
    → IsU64 (length (layout n cols))
    → Reads (decode_records n start_state []) es out
    → decode_block (layout n cols) ≡ ok out
unfolding decode_block
decode_block-run n cols es out size each hn fits reads =
    let holds =
      Holds-first cols (es ++ []) size (layout-Bounds n cols fits).each
        (λ c. each c ∙ ap (content c) (sym (append-nil es))) in
    let (rs, run, left) = reads.run (first_readers cols) [] holds in
    rw (parse-layout n cols size hn fits)
      (rw (new-streams cols size) (rw run (rw (ensure_done-Holds rs left) refl)))

-- Records in the ranges of their Rust types, encoded into columns whose payload fits a usize, are
-- decoded to their protobuf bytes, in order.
pub decode_block-encode_all :
    (rs : List MatchRecord) {cols : Cols} {state : BlockState}
    → All IsRecord rs
    → encode_all rs Cols.new start_state ≡ ok (cols, state)
    → IsU64 (length rs)
    → IsU64 (length (layout (length rs) cols))
    → decode_block (layout (length rs) cols) ≡ ok (map record_bytes rs)
decode_block-encode_all rs {cols} h e hn fits =
    let (es, appended, reads) = encode_all-events rs Cols.new start_state h refl e in
    decode_block-run (length rs) cols es (map record_bytes rs) appended.size
      (λ c. appended.each c ∙ ap (λ t. t ++ content c es) (stream-new c)) hn fits (reads [])

pub bytes_eq_self : (bs : Bytes) → bytes_eq bs bs ≡ true
bytes_eq_self [] = refl
bytes_eq_self (b ∷ bs) = rw (==_self b, bytes_eq_self bs) refl

bytes_eq_sound : (as' bs : Bytes) → bytes_eq as' bs ≡ true → as' ≡ bs
bytes_eq_sound [] [] h = refl
bytes_eq_sound (a ∷ as') (b ∷ bs) h =
    let e : a ≡ b = ground arith in
    let es : as' ≡ bs = bytes_eq_sound as' bs (ground arith) in cc (e, es)
bytes_eq_sound _ _ h = cc

pub all_equal_self : (raws : List Bytes) → all_equal raws raws ≡ true
all_equal_self [] = refl
all_equal_self (raw ∷ raws) = rw (bytes_eq_self raw, all_equal_self raws) refl

all_equal_sound :
    (want got : List Bytes) → length got ≡ length want → all_equal want got ≡ true → got ≡ want
all_equal_sound [] [] n h = refl
all_equal_sound (w ∷ ws) (g ∷ gs) n h =
    let here : bytes_eq w g ≡ true = ground arith in
    let rest : gs ≡ ws = all_equal_sound ws gs (omega arith) (ground arith) in
    cc (sym (bytes_eq_sound w g here), rest)
all_equal_sound _ _ n h = absurd (omega arith)

ensure-true : {E : Type 0} (b : Bool) (e : E) → ensure b e ≡ ok tt → b ≡ true
ensure-true true e h = refl
ensure-true false e h = cc

length-map : (rs : List MatchRecord) → length (map record_bytes rs) ≡ length rs
length-map [] = refl
length-map (r ∷ rs) = ap suc (length-map rs)

-- Ids and start times from which no delta leaves the i64.
abbrev pub IsNear : MatchRecord → Type 0
IsNear r = (r.game_id < 2 ^ 63) × ((ms : ℕ) × (r.game_start_ms ≡ pos ms) × (ms < 2 ^ 63))

deltas_ok :
    (r : MatchRecord) (state : BlockState)
    → IsNear r
    → state.game_id < 2 ^ 63
    → ((ms : ℕ) × (state.game_start_ms ≡ pos ms) × (ms < 2 ^ 63))
    → (gid_d : ℤ) × (start_d : ℤ) × (delta_u64 r.game_id state.game_id ≡ ok gid_d)
      × (delta_i64 r.game_start_ms state.game_start_ms ≡ ok start_d)
deltas_ok r state h k (prev, ep, hp) =
    let (ms, em, hm) = h.1 in
    (
      sub_ℕ r.game_id state.game_id,
      pos ms -ℤ pos prev,
      delta_u64-ok r.game_id state.game_id h.0 k,
      rw (em, ep) (delta_i64-ok ms prev hm hp),
    )

-- From a state whose id is below 2 ^ 63 and whose start time is not negative, the encoder accepts
-- any records of which the same is true.
pub encode_all-ok :
    (rs : List MatchRecord) (cols : Cols) (state : BlockState)
    → All IsNear rs
    → state.game_id < 2 ^ 63
    → ((ms : ℕ) × (state.game_start_ms ≡ pos ms) × (ms < 2 ^ 63))
    → (cols' : Cols) × (state' : BlockState) × (encode_all rs cols state ≡ ok (cols', state'))
unfolding encode_all encode_record
encode_all-ok [] cols state h k start = (cols, state, refl)
encode_all-ok (r ∷ rs) cols state h k start =
    let (gid_d, start_d, eg, es) = deltas_ok r state h.0 k start in
    let (cols', state', e) =
      encode_all-ok rs (record_writer gid_d start_d r cols) (after r) h.1 h.0.0 h.0.1 in
    (cols', state', rw eg (rw es e))

module _ (prost_decode : Bytes → Try MatchRecord) where
  encode_records-encode_all :
      (rs : List MatchRecord) (cols : Cols) (state : BlockState)
      → All (λ r. prost_decode (record_bytes r) ≡ ok r) rs
      → encode_records prost_decode (map record_bytes rs) cols state ≡ encode_all rs cols state
  unfolding encode_records encode_all
  encode_records-encode_all [] cols state h = refl
  encode_records-encode_all (r ∷ rs) cols state h = rw h.0 (
      ap (λ k. encode_record r cols state >>= k)
        (fun_ext λ s. encode_records-encode_all rs s.0 s.1 h.1))

  -- Where prost decodes what `MatchRecord::encode` wrote, records in the ranges of their Rust
  -- types, with ids below 2 ^ 63 and start times that are not negative, and whose payload fits a
  -- usize, are encoded to a block, the self-check included, and the block is decoded to their
  -- bytes, in order.
  pub decode_block-encode_block :
      (rs : List MatchRecord)
      → All IsRecord rs
      → All IsNear rs
      → All (λ r. prost_decode (record_bytes r) ≡ ok r) rs
      → IsU64 (length rs)
      → ((cols : Cols) (state : BlockState)
          → encode_all rs Cols.new start_state ≡ ok (cols, state)
          → IsU64 (length (layout (length rs) cols)))
      → (payload : Bytes) × (encode_block prost_decode (map record_bytes rs) ≡ ok payload)
        × (decode_block payload ≡ ok (map record_bytes rs))
  unfolding encode_block
  decode_block-encode_block rs h near prost hn fits =
      let (cols, state, e) =
        encode_all-ok rs Cols.new start_state near (omega arith) (0, refl, omega arith) in
      let decoded = decode_block-encode_all rs h e hn (fits cols state e) in
      let (es, appended, reads) = encode_all-events rs Cols.new start_state h refl e in
      (
        layout (length rs) cols,
        rw (encode_records-encode_all rs Cols.new start_state prost) (
            rw e (
              rw (length-map rs) (
                rw (encode_payload-layout (length rs) cols appended.size (fits cols state e)) (
                  rw decoded (
                    rw (length-map rs) (
                      rw (==_self (length rs))
                        (rw (all_equal_self (map record_bytes rs)) refl))))))),
        decoded,
      )

  -- A payload that `encode_block` returns is decoded to the very records it was given, whatever
  -- those are and whatever prost makes of them.
  pub decode_block-of-encode_block :
      (raws : List Bytes) {payload : Bytes}
      → encode_block prost_decode raws ≡ ok payload
      → decode_block payload ≡ ok raws
  unfolding encode_block
  decode_block-of-encode_block raws {payload} e =
      let ((cols, state), e1, k1) =
        bind_ok (encode_records prost_decode raws Cols.new start_state) _ e in
      let (payload', e2, k2) = bind_ok (encode_payload (length raws) cols) _ k1 in
      let (rebuilt, e3, k3) = bind_ok (decode_block payload') _ k2 in
      let (_, e4, k4) = bind_ok (ensure (length rebuilt == length raws) self_check) _ k3 in
      let (_, e5, k5) = bind_ok (ensure (all_equal raws rebuilt) self_check) _ k4 in
      let count : length rebuilt ≡ length raws =
        (==_iff (length rebuilt) (length raws)).0 (ensure-true _ _ e4) in
      let same : rebuilt ≡ raws = all_equal_sound raws rebuilt count (ensure-true _ _ e5) in
      let out : payload' ≡ payload = cc k5 in
      subst (λ p. decode_block p ≡ ok raws) out (e3 ∙ ap ok same)
