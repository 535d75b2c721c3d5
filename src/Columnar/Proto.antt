-- ===== src/Columnar/Proto.antt =====
-- The `put_field_*` functions of crates/server/src/columnar.rs, which write protobuf fields, and
-- the protobuf encoding of a match record as a value of its own: what prost's `encode_to_vec`
-- writes for the messages of crates/server/src/record.rs and its mirror matchrecord.proto.
use lol_crawler.Prelude.{
  ℕ, zero, suc, ◌+◌, ◌*◌, ◌≡◌, sym, Bool, false, Option, none, some, List, [], ◌∷◌, ◌++◌, length,
  ◌==◌, if◌then◌else◌, append_assoc, append-nil, arith,
}
use lol_crawler.Prelude.Int.{ℤ, pos, negsuc, as_u64}
use lol_crawler.Record.{
  MatchRecord, Participant, TimelineLite, MinuteFrame, KillEvent, ObjectiveEvent, WardEvent,
}
use lol_crawler.Columnar.Varint.{Bytes, write_varint, varint}
use lol_crawler.Columnar.Varint.RoundTrip.{write_varint-varint}
use lol_crawler.Columnar.Delta.{zigzag_i64}
use lol_crawler.Columnar.Encode.{from_bool}

-- `(field as u64) << 3` and `| 2`, on the small field numbers in use.
abbrev tag : ℕ → ℕ → ℕ
tag field wire_type = field * 8 + wire_type

unfoldable pub put_field_varint : Bytes → ℕ → ℕ → Bytes
put_field_varint out field value =
    if value == 0 then out else write_varint (write_varint out (tag field 0)) value

abbrev is_zero_i64 : ℤ → Bool
is_zero_i64 (pos n) = n == 0
is_zero_i64 (negsuc n) = false

unfoldable pub put_field_int64 : Bytes → ℕ → ℤ → Bytes
put_field_int64 out field value =
    if is_zero_i64 value then out else write_varint (write_varint out (tag field 0)) (as_u64 value)

unfoldable pub put_field_message : Bytes → ℕ → Bytes → Bytes
put_field_message out field bytes =
    write_varint (write_varint out (tag field 2)) (length bytes) ++ bytes

unfoldable pub put_field_bytes : Bytes → ℕ → Bytes → Bytes
unfolding put_field_message
put_field_bytes out field [] = out
put_field_bytes out field (b ∷ bs) = put_field_message out field (b ∷ bs)

unfoldable pub put_field_packed_body : Bytes → ℕ → Bytes → Bytes
put_field_packed_body out field body = put_field_bytes out field body

-- The fields of a message, by wire type. proto3 leaves out a scalar or a vector at its default.
pub data Field : Type 0 where
  uint : ℕ → ℕ → Field
  int64 : ℕ → ℤ → Field
  bytes : ℕ → Bytes → Field
  message : ℕ → Bytes → Field

unfoldable pub delimited : ℕ → Bytes → Bytes
delimited n body = varint (tag n 2) ++ (varint (length body) ++ body)

unfoldable pub field : Field → Bytes
unfolding delimited
field (uint n zero) = []
field (uint n (suc v)) = varint (tag n 0) ++ varint (suc v)
field (int64 n (pos zero)) = []
field (int64 n (pos (suc v))) = varint (tag n 0) ++ varint (suc v)
field (int64 n (negsuc v)) = varint (tag n 0) ++ varint (as_u64 (negsuc v))
field (bytes n []) = []
field (bytes n (b ∷ bs)) = delimited n (b ∷ bs)
field (message n body) = delimited n body

unfoldable pub fields : List Field → Bytes
fields [] = []
fields (f ∷ fs) = field f ++ fields fs

-- A packed vector of u32, and of sint64.
unfoldable pub packed_u32 : List ℕ → Bytes
packed_u32 [] = []
packed_u32 (v ∷ vs) = varint v ++ packed_u32 vs

unfoldable pub packed_sint64 : List ℤ → Bytes
packed_sint64 [] = []
packed_sint64 (v ∷ vs) = varint (zigzag_i64 v) ++ packed_sint64 vs

unfoldable pub participant_bytes : Participant → Bytes
participant_bytes p = fields (
    uint 1 p.player_id
    ∷ uint 2 p.champion_id
    ∷ uint 3 p.position
    ∷ uint 4 p.spell1
    ∷ uint 5 p.spell2
    ∷ bytes 6 (packed_u32 p.runes)
    ∷ bytes 7 (packed_sint64 p.stats)
    ∷ [])

unfoldable pub frame_bytes : MinuteFrame → Bytes
frame_bytes f = fields (
    uint 1 f.minute
    ∷ bytes 2 (packed_u32 f.total_gold)
    ∷ bytes 3 (packed_u32 f.xp)
    ∷ bytes 4 (packed_u32 f.cs)
    ∷ bytes 5 (packed_u32 f.dmg_to_champs)
    ∷ [])

unfoldable pub kill_bytes : KillEvent → Bytes
kill_bytes k = fields (
    uint 1 k.t_s
    ∷ uint 2 k.killer
    ∷ uint 3 k.victim
    ∷ uint 4 k.assist_mask
    ∷ uint 5 k.x
    ∷ uint 6 k.y
    ∷ [])

unfoldable pub objective_bytes : ObjectiveEvent → Bytes
objective_bytes o =
    fields
      (uint 1 o.t_s ∷ uint 2 o.kind ∷ uint 3 o.killer ∷ uint 4 o.losing_team ∷ uint 5 o.lane ∷ [])

unfoldable pub ward_bytes : WardEvent → Bytes
ward_bytes w = fields (uint 1 w.t_s ∷ uint 2 w.kind ∷ uint 3 w.participant ∷ [])

-- A repeated message field.
unfoldable pub repeated {ℓ} : {A : Type ℓ} → ℕ → (A → Bytes) → List A → Bytes
unfolding field
repeated n body [] = []
repeated n body (x ∷ xs) = field (message n (body x)) ++ repeated n body xs

unfoldable pub timeline_bytes : TimelineLite → Bytes
timeline_bytes t =
    repeated 1 frame_bytes t.frames
    ++ (repeated 2 kill_bytes t.kills
        ++ (repeated 3 objective_bytes t.objectives ++ repeated 4 ward_bytes t.wards))

unfoldable pub timeline_field : Option TimelineLite → Bytes
timeline_field none = []
timeline_field (some t) = field (message 12 (timeline_bytes t))

-- Field 13, the bans, comes last: fields are written in the order of their numbers.
unfoldable pub record_bytes : MatchRecord → Bytes
record_bytes r =
    fields (
      uint 1 r.schema_version
      ∷ uint 2 r.game_id
      ∷ bytes 3 r.platform
      ∷ uint 4 r.queue_id
      ∷ int64 5 r.game_start_ms
      ∷ uint 6 r.duration_s
      ∷ uint 7 (from_bool r.blue_won)
      ∷ bytes 8 r.game_version
      ∷ uint 9 r.patch_major
      ∷ uint 10 r.patch_minor
      ∷ [])
    ++ (repeated 11 participant_bytes r.participants
        ++ (timeline_field r.timeline ++ field (bytes 13 (packed_u32 r.bans))))

write_twice :
    (out : Bytes) (a b : ℕ) → write_varint (write_varint out a) b ≡ out ++ (varint a ++ varint b)
write_twice out a b = simp (write_varint-varint, append_assoc)

-- Each `put_field_*` appends the field.
pub put_field_varint-field :
    (out : Bytes) (n v : ℕ) → put_field_varint out n v ≡ out ++ field (uint n v)
unfolding put_field_varint field
put_field_varint-field out n zero = sym (append-nil out)
put_field_varint-field out n (suc v) = ground (arith, write_twice out (tag n 0) (suc v))

pub put_field_int64-field :
    (out : Bytes) (n : ℕ) (v : ℤ) → put_field_int64 out n v ≡ out ++ field (int64 n v)
unfolding put_field_int64 field
put_field_int64-field out n (pos zero) = sym (append-nil out)
put_field_int64-field out n (pos (suc v)) = ground (arith, write_twice out (tag n 0) (suc v))
put_field_int64-field out n (negsuc v) =
    ground (arith, write_twice out (tag n 0) (as_u64 (negsuc v)))

pub put_field_message-field :
    (out : Bytes) (n : ℕ) (body : Bytes)
    → put_field_message out n body ≡ out ++ field (message n body)
unfolding put_field_message field
put_field_message-field out n body = simp (write_varint-varint, append_assoc)

pub put_field_packed_body-field :
    (out : Bytes) (n : ℕ) (body : Bytes)
    → put_field_packed_body out n body ≡ out ++ field (bytes n body)
unfolding put_field_packed_body put_field_bytes field
put_field_packed_body-field out n [] = sym (append-nil out)
put_field_packed_body-field out n (b ∷ bs) = simp (write_varint-varint, append_assoc)

pub put_field_bytes-field :
    (out : Bytes) (n : ℕ) (body : Bytes) → put_field_bytes out n body ≡ out ++ field (bytes n body)
unfolding put_field_packed_body
put_field_bytes-field = put_field_packed_body-field
