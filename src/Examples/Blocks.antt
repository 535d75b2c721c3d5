-- ===== src/Examples/Blocks.antt =====
-- A block of one record.
use lol_crawler.Prelude.{◌≡◌, refl, sym, ◌∙◌, subst, true, some, List, [], ◌∷◌, map, length, arith}
use lol_crawler.Prelude.Int.{pos, negsuc, IsU64}
use lol_crawler.Prelude.Result.{ok}
use lol_crawler.Record.{Participant, KillEvent, MatchRecord, IsRecord}
use lol_crawler.Columnar.Error.{Try}
use lol_crawler.Columnar.Varint.{Bytes, write_varint, write_loop, varint}
use lol_crawler.Columnar.Delta.{zigzag_i64, delta_u64, delta_i64, narrow_i64}
use lol_crawler.Columnar.Stream.{nmisc}
use lol_crawler.Columnar.Cols.{Cols, wv, wbytes, rune_v, stat_z}
use lol_crawler.Columnar.Cols
use lol_crawler.Columnar.Encode.{
  BlockState, start_state, encode_bans, encode_runes, encode_stats, encode_participant,
  encode_participants, encode_values, encode_series, encode_frames, encode_kills, encode_objectives,
  encode_wards, encode_timeline, encode_timeline?, record_writer, encode_record,
}
use lol_crawler.Columnar.Proto.{record_bytes}
use lol_crawler.Columnar.Payload.{encode_payload, parse, streams}
use lol_crawler.Columnar.Block.{decode_block, encode_block}
use lol_crawler.Columnar.RoundTrip.Payload.{layout, encode_payload-layout}
use lol_crawler.Columnar.RoundTrip.Manifest.{parse-layout}
use lol_crawler.Columnar.RoundTrip.Block.{encode_all}
use lol_crawler.Columnar.RoundTrip.Whole.{
  IsNear, encode_all-ok, decode_block-encode_all, decode_block-encode_block,
  decode_block-of-encode_block,
}

abbrev player : Participant
player = record {
  player_id = 7;
  champion_id = 8;
  position = 1;
  spell1 = 4;
  spell2 = 14;
  runes = 8005 ∷ [];
  stats = negsuc 2 ∷ [];
}

abbrev kill : KillEvent
kill = record { t_s = 90; killer = 1; victim = 6; assist_mask = 3; x = 500; y = 600 }

abbrev pub match : MatchRecord
match = record {
  schema_version = 1;
  game_id = 5;
  platform = 69 ∷ [];
  queue_id = 420;
  game_start_ms = pos 1000;
  duration_s = 1800;
  blue_won = true;
  game_version = 49 ∷ [];
  patch_major = 15;
  patch_minor = 1;
  participants = player ∷ [];
  timeline = some (record { frames = []; kills = kill ∷ []; objectives = []; wards = [] });
  bans = 157 ∷ [];
}

pub match-IsRecord : IsRecord match
match-IsRecord = record {
  schema_version = omega arith;
  game_id = omega arith;
  platform_len = omega arith;
  queue_id = omega arith;
  game_start_ms = (omega arith, omega arith);
  duration_s = omega arith;
  game_version_len = omega arith;
  patch_major = omega arith;
  patch_minor = omega arith;
  participants_len = omega arith;
  participants = (
    record {
      player_id = omega arith;
      champion_id = omega arith;
      position = omega arith;
      spell1 = omega arith;
      spell2 = omega arith;
      runes_len = omega arith;
      runes = (omega arith, tt);
      stats_len = omega arith;
      stats = ((omega arith, omega arith), tt);
    },
    tt,
  );
  timeline = record {
    frames_len = omega arith;
    frames = tt;
    kills_len = omega arith;
    kills = (
      record {
        t_s = omega arith;
        killer = omega arith;
        victim = omega arith;
        assist_mask = omega arith;
        x = omega arith;
        y = omega arith;
      },
      tt,
    );
    objectives_len = omega arith;
    objectives = tt;
    wards_len = omega arith;
    wards = tt;
  };
  bans = (omega arith, (omega arith, tt));
}

match-IsNear : IsNear match
match-IsNear = (omega arith, (1000, refl, omega arith))

abbrev pub matches : List MatchRecord
matches = match ∷ []

abbrev pub match_cols : Cols
match_cols = record_writer (pos 5) (pos 1000) match Cols.new

pub match_run :
    encode_all matches Cols.new start_state
    ≡ ok (match_cols, record { game_id = 5; game_start_ms = pos 1000 })
unfolding encode_all encode_record delta_u64 delta_i64 narrow_i64
match_run = refl

pub match_size : length (layout 1 match_cols) ≡ 103
unfolding record_writer encode_bans encode_runes encode_stats encode_participant encode_participants
    encode_values encode_series encode_frames encode_kills encode_objectives encode_wards
    encode_timeline encode_timeline? wv wbytes rune_v stat_z zigzag_i64 write_varint write_loop
    varint
match_size = refl

pub match_fixed : length match_cols.fixed ≡ nmisc
unfolding record_writer encode_bans encode_runes encode_stats encode_participant encode_participants
    encode_values encode_series encode_frames encode_kills encode_objectives encode_wards
    encode_timeline encode_timeline? wv wbytes rune_v stat_z zigzag_i64 write_varint write_loop
    varint
match_fixed = refl

match_fits :
    (cols : Cols) (state : BlockState)
    → encode_all matches Cols.new start_state ≡ ok (cols, state)
    → IsU64 (length (layout 1 cols))
match_fits cols state e =
    let run : ok (match_cols, record { game_id = 5; game_start_ms = pos 1000 }) ≡ ok (cols, state) =
      sym match_run ∙ e in
    subst (λ c. IsU64 (length (layout 1 c))) {x = match_cols} {y = cols} (cc run)
      (rw match_size (omega arith))

-- A decoder that answers the one record is enough for prost here.
abbrev pub decode_match : Bytes → Try MatchRecord
decode_match bytes = ok match

match_block :
    (payload : Bytes) × (encode_block decode_match (map record_bytes matches) ≡ ok payload)
    × (decode_block payload ≡ ok (map record_bytes matches))
match_block =
    decode_block-encode_block decode_match matches (match-IsRecord, tt) (match-IsNear, tt)
      (refl, tt) (omega arith) match_fits

decode_block-encode_block_example :
    (payload : Bytes) × (encode_block decode_match (map record_bytes matches) ≡ ok payload)
    × (decode_block payload ≡ ok (map record_bytes matches))
decode_block-encode_block_example =
    decode_block-encode_block decode_match matches (match-IsRecord, tt) (match-IsNear, tt)
      (refl, tt) (omega arith) match_fits

decode_block-of-encode_block_example : decode_block match_block.0 ≡ ok (map record_bytes matches)
decode_block-of-encode_block_example =
    decode_block-of-encode_block decode_match (map record_bytes matches) match_block.1

decode_block-encode_all_example : decode_block (layout 1 match_cols) ≡ ok (map record_bytes matches)
decode_block-encode_all_example =
    decode_block-encode_all matches (match-IsRecord, tt) match_run (omega arith)
      (rw match_size (omega arith))

encode_all-ok_example :
    (cols : Cols) × (state : BlockState) × (encode_all matches Cols.new start_state
      ≡ ok (cols, state))
encode_all-ok_example =
    encode_all-ok matches Cols.new start_state (match-IsNear, tt) (omega arith)
      (0, refl, omega arith)

parse-layout_example :
    parse (layout 1 match_cols)
    ≡ ok (record {
      records = 1;
      stat_cols = length match_cols.stat;
      rune_cols = length match_cols.rune;
      columns = streams match_cols;
    })
parse-layout_example =
    parse-layout 1 match_cols match_fixed (omega arith) (rw match_size (omega arith))

encode_payload-layout_example : encode_payload 1 match_cols ≡ ok (layout 1 match_cols)
encode_payload-layout_example =
    encode_payload-layout 1 match_cols match_fixed (rw match_size (omega arith))
