-- ===== src/Columnar/Block.antt =====
-- `encode_block` and `decode_block` of crates/server/src/columnar.rs. `MatchRecord::decode` is
-- prost's: a parameter.
use lol_crawler.Prelude.{ℕ, zero, suc, List, [], ◌∷◌, ◌++◌, Bool, true, ◌&&◌, length, ◌==◌}
use lol_crawler.Prelude.Result.{ok, ensure, ◌>>=◌, ◌>>◌}
use lol_crawler.Record.{MatchRecord}
use lol_crawler.Columnar.Error.{Try, self_check}
use lol_crawler.Columnar.Varint.{Bytes}
use lol_crawler.Columnar.Cols.{Cols}
use lol_crawler.Columnar.Cols
use lol_crawler.Columnar.Encode.{BlockState, start_state, encode_record}
use lol_crawler.Columnar.Payload.{bytes_eq, encode_payload, parse}
use lol_crawler.Columnar.Readers.{ColReaders, D, pure, ensure_done}
use lol_crawler.Columnar.Readers
use lol_crawler.Columnar.Decode.{decode_record}

-- `decode_record` for each of the block's records, pushed on `out`.
unfoldable pub decode_records : ℕ → BlockState → List Bytes → D (List Bytes)
decode_records zero state out = pure out
decode_records (suc n) state out =
    Readers.◌>>=◌ (decode_record state) (λ r. decode_records n r.1 (out ++ (r.0 ∷ [])))

unfoldable pub decode_block : Bytes → Try (List Bytes)
decode_block payload = do
  manifest ← parse payload
  cols ← Readers.new manifest.columns manifest.stat_cols manifest.rune_cols
  (records, cols') ← decode_records manifest.records start_state [] cols
  ensure_done cols'
  ok records

-- The comparison of the self-check, after that of the two lengths.
abbrev pub all_equal : List Bytes → List Bytes → Bool
all_equal (want ∷ ws) (got ∷ gs) = bytes_eq want got && all_equal ws gs
all_equal _ _ = true

module _ (prost_decode : Bytes → Try MatchRecord) where
  unfoldable pub encode_records : List Bytes → Cols → BlockState → Try (Cols × BlockState)
  encode_records [] cols state = ok (cols, state)
  encode_records (raw ∷ raws) cols state = do
    record' ← prost_decode raw
    (cols', state') ← encode_record record' cols state
    encode_records raws cols' state'

  unfoldable pub encode_block : List Bytes → Try Bytes
  encode_block records = do
    (cols, state) ← encode_records records Cols.new start_state
    payload ← encode_payload (length records) cols
    rebuilt ← decode_block payload
    ensure (length rebuilt == length records) self_check
    ensure (all_equal records rebuilt) self_check
    ok payload
