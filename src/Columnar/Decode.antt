-- ===== src/Columnar/Decode.antt =====
-- `decode_record` and `decode_timeline` of crates/server/src/columnar.rs. Each loop over a count is
-- a recursion on it, and `out` is the vector that the source extends.
use lol_crawler.Prelude.{
  ℕ, zero, suc, ◌+◌, Bool, true, false, List, [], ◌∷◌, ◌++◌, get_or, leb, ◌==◌,
}
use lol_crawler.Prelude.Result.{ensure}
use lol_crawler.Columnar.Error.{blue_won_range, tl_present_range}
use lol_crawler.Columnar.Varint.{Bytes, write_varint}
use lol_crawler.Columnar.Delta.{
  to_usize, read_u32, add_delta_u64, add_delta_i64, add_delta_u32, zigzag_i64,
}
use lol_crawler.Columnar.Stream
use lol_crawler.Columnar.Encode.{BlockState, Series, no_series}
use lol_crawler.Columnar.Proto.{
  put_field_varint, put_field_int64, put_field_bytes, put_field_message, put_field_packed_body,
}
use lol_crawler.Columnar.Readers.{D, ◌>>=◌, ◌>>◌, pure, lift, rv, rz, rbytes, stat_z, rune_v}

-- `read_u32(cols.rv(col)?)?` and `to_usize(cols.rv(col)?)?`.
unfoldable pub rv_u32 : ℕ → D ℕ
rv_u32 col = do v ← rv col; lift (read_u32 v)

unfoldable pub rv_usize : ℕ → D ℕ
rv_usize col = do v ← rv col; lift (to_usize v)

-- `add_delta_u32(prev, cols.rz(col)?)?`.
unfoldable pub rz_u32 : ℕ → ℕ → D ℕ
rz_u32 col prev = do d ← rz col; lift (add_delta_u32 prev d)

unfoldable pub decode_runes : ℕ → ℕ → Bytes → D Bytes
decode_runes zero idx packed = pure packed
decode_runes (suc n) idx packed = do
  v ← rune_v idx
  rune ← lift (read_u32 v)
  decode_runes n (idx + 1) (write_varint packed rune)

unfoldable pub decode_stats : ℕ → ℕ → Bytes → D Bytes
decode_stats zero idx packed = pure packed
decode_stats (suc n) idx packed = do
  stat ← stat_z idx
  decode_stats n (idx + 1) (write_varint packed (zigzag_i64 stat))

unfoldable pub decode_participant : D Bytes
decode_participant = do
  player_id ← rv_u32 Stream.p_player
  champion_id ← rv_u32 Stream.p_champ
  position ← rv_u32 Stream.p_pos
  spell1 ← rv_u32 Stream.p_sp1
  spell2 ← rv_u32 Stream.p_sp2
  n_runes ← rv_usize Stream.p_runes_n
  runes ← decode_runes n_runes 0 []
  n_stats ← rv_usize Stream.p_stats_n
  stats ← decode_stats n_stats 0 []
  let out1 = put_field_varint [] 1 player_id
  let out2 = put_field_varint out1 2 champion_id
  let out3 = put_field_varint out2 3 position
  let out4 = put_field_varint out3 4 spell1
  let out5 = put_field_varint out4 5 spell2
  let out6 = put_field_packed_body out5 6 runes
  pure (put_field_packed_body out6 7 stats)

unfoldable pub decode_participants : ℕ → Bytes → D Bytes
decode_participants zero out = pure out
decode_participants (suc n) out = do
  participant ← decode_participant
  decode_participants n (put_field_message out 11 participant)

-- The values of one series, packed, and as the vector that the next frame subtracts from.
unfoldable pub decode_values : ℕ → List ℕ → ℕ → ℕ → Bytes → List ℕ → D (Bytes × List ℕ)
decode_values v_col prev zero slot packed values = pure (packed, values)
decode_values v_col prev (suc n) slot packed values = do
  value ← rz_u32 v_col (get_or prev slot 0)
  decode_values v_col prev n (slot + 1) (write_varint packed value) (values ++ (value ∷ []))

unfoldable pub decode_series : ℕ → ℕ → List ℕ → D (Bytes × List ℕ)
decode_series n_col v_col prev = do
  n_values ← rv_usize n_col
  decode_values v_col prev n_values 0 [] []

-- The frame, and its series for the next one.
unfoldable pub decode_frame : Series → D (Bytes × Series)
decode_frame prev = do
  minute ← rv_u32 Stream.f_minute
  gold ← decode_series Stream.f_gold_n Stream.f_gold prev.gold
  xp ← decode_series Stream.f_xp_n Stream.f_xp prev.xp
  cs ← decode_series Stream.f_cs_n Stream.f_cs prev.cs
  dmg ← decode_series Stream.f_dmg_n Stream.f_dmg prev.dmg
  let out1 = put_field_varint [] 1 minute
  let out2 = put_field_packed_body out1 2 gold.0
  let out3 = put_field_packed_body out2 3 xp.0
  let out4 = put_field_packed_body out3 4 cs.0
  let out5 = put_field_packed_body out4 5 dmg.0
  pure (out5, record { gold = gold.1; xp = xp.1; cs = cs.1; dmg = dmg.1 })

unfoldable pub decode_frames : ℕ → Series → Bytes → D Bytes
decode_frames zero prev out = pure out
decode_frames (suc n) prev out = do
  frame ← decode_frame prev
  decode_frames n frame.1 (put_field_message out 1 frame.0)

-- The event, and its time for the next one.
unfoldable pub decode_kill : ℕ → D (Bytes × ℕ)
decode_kill prev_t = do
  t ← rz_u32 Stream.k_t prev_t
  killer ← rv_u32 Stream.k_killer
  victim ← rv_u32 Stream.k_victim
  mask ← rv_u32 Stream.k_mask
  x ← rv_u32 Stream.k_x
  y ← rv_u32 Stream.k_y
  let out1 = put_field_varint [] 1 t
  let out2 = put_field_varint out1 2 killer
  let out3 = put_field_varint out2 3 victim
  let out4 = put_field_varint out3 4 mask
  let out5 = put_field_varint out4 5 x
  pure (put_field_varint out5 6 y, t)

unfoldable pub decode_kills : ℕ → ℕ → Bytes → D Bytes
decode_kills zero prev_t out = pure out
decode_kills (suc n) prev_t out = do
  kill ← decode_kill prev_t
  decode_kills n kill.1 (put_field_message out 2 kill.0)

-- The event, and its time for the next one.
unfoldable pub decode_objective : ℕ → D (Bytes × ℕ)
decode_objective prev_t = do
  t ← rz_u32 Stream.o_t prev_t
  kind ← rv_u32 Stream.o_kind
  killer ← rv_u32 Stream.o_killer
  team ← rv_u32 Stream.o_team
  lane ← rv_u32 Stream.o_lane
  let out1 = put_field_varint [] 1 t
  let out2 = put_field_varint out1 2 kind
  let out3 = put_field_varint out2 3 killer
  let out4 = put_field_varint out3 4 team
  pure (put_field_varint out4 5 lane, t)

unfoldable pub decode_objectives : ℕ → ℕ → Bytes → D Bytes
decode_objectives zero prev_t out = pure out
decode_objectives (suc n) prev_t out = do
  objective ← decode_objective prev_t
  decode_objectives n objective.1 (put_field_message out 3 objective.0)

-- The event, and its time for the next one.
unfoldable pub decode_ward : ℕ → D (Bytes × ℕ)
decode_ward prev_t = do
  t ← rz_u32 Stream.w_t prev_t
  kind ← rv_u32 Stream.w_kind
  participant ← rv_u32 Stream.w_part
  let out1 = put_field_varint [] 1 t
  let out2 = put_field_varint out1 2 kind
  pure (put_field_varint out2 3 participant, t)

unfoldable pub decode_wards : ℕ → ℕ → Bytes → D Bytes
decode_wards zero prev_t out = pure out
decode_wards (suc n) prev_t out = do
  ward ← decode_ward prev_t
  decode_wards n ward.1 (put_field_message out 4 ward.0)

unfoldable pub decode_timeline : D Bytes
decode_timeline = do
  n_frames ← rv_usize Stream.nframes
  out1 ← decode_frames n_frames no_series []
  n_kills ← rv_usize Stream.nkills
  out2 ← decode_kills n_kills 0 out1
  n_objs ← rv_usize Stream.nobjs
  out3 ← decode_objectives n_objs 0 out2
  n_wards ← rv_usize Stream.nwards
  decode_wards n_wards 0 out3

-- The field is written if the timeline is present.
unfoldable pub timeline_if : Bool → Bytes → D Bytes
timeline_if false out = pure out
timeline_if true out = do timeline ← decode_timeline; pure (put_field_message out 12 timeline)

unfoldable pub decode_timeline? : Bytes → D Bytes
decode_timeline? out = do
  tl_present ← rv Stream.tl_present
  lift (ensure (leb tl_present 1) tl_present_range)
  timeline_if (tl_present == 1) out

unfoldable pub decode_bans : ℕ → Bytes → D Bytes
decode_bans zero bans = pure bans
decode_bans (suc n) bans = do ban ← rv_u32 Stream.bans; decode_bans n (write_varint bans ban)

unfoldable pub decode_record : BlockState → D (Bytes × BlockState)
decode_record state = do
  schema_version ← rv_u32 Stream.schema
  gid_d ← rz Stream.gid_d
  game_id ← lift (add_delta_u64 state.game_id gid_d)
  platform_len ← rv_usize Stream.plat_len
  platform ← rbytes Stream.plat platform_len
  queue_id ← rv_u32 Stream.queue
  start_d ← rz Stream.start_d
  game_start_ms ← lift (add_delta_i64 state.game_start_ms start_d)
  duration_s ← rv_u32 Stream.dur
  blue_won ← rv Stream.blue
  lift (ensure (leb blue_won 1) blue_won_range)
  game_version_len ← rv_usize Stream.gv_len
  game_version ← rbytes Stream.gv game_version_len
  patch_major ← rv_u32 Stream.pmaj
  patch_minor ← rv_u32 Stream.pmin
  let out1 = put_field_varint [] 1 schema_version
  let out2 = put_field_varint out1 2 game_id
  let out3 = put_field_bytes out2 3 platform
  let out4 = put_field_varint out3 4 queue_id
  let out5 = put_field_int64 out4 5 game_start_ms
  let out6 = put_field_varint out5 6 duration_s
  let out7 = put_field_varint out6 7 blue_won
  let out8 = put_field_bytes out7 8 game_version
  let out9 = put_field_varint out8 9 patch_major
  let out10 = put_field_varint out9 10 patch_minor
  n_parts ← rv_usize Stream.nparts
  out11 ← decode_participants n_parts out10
  out12 ← decode_timeline? out11
  n_bans ← rv_usize Stream.bans_n
  bans ← decode_bans n_bans []
  pure (
    put_field_packed_body out12 13 bans,
    record { game_id = game_id; game_start_ms = game_start_ms },
  )
