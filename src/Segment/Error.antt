-- ===== src/Segment/Error.antt =====
-- Why the segment code of crates/server/src/storage.rs refuses a file; the numbers that its messages
-- interpolate are left out.
use lol_crawler.Prelude.Result.{Result}
use lol_crawler.Columnar.Error as Columnar

pub data Error : Type 0 where
  truncated_length truncated_body offset_range : Error
  truncated_header length_overflow unknown_magic truncated_block : Error
  compressed_too_large uncompressed_too_large crc_mismatch decompress_failed length_mismatch : Error
  no_block no_record : Error
  offset_count undecodable : Error
  u32_range compress_failed torn_tail malformed_idx indexed_tail : Error
  verify_count verify_bytes : Error
  columnar : Columnar.Error → Error
  -- A loop of the model would run out of rounds.
  out_of_rounds : Error

abbrev pub Try : Type 0 → Type 0
Try A = Result Error A
