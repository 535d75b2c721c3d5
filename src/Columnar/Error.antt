-- ===== src/Columnar/Error.antt =====
-- The errors of crates/server/src/columnar.rs, one constructor for each message; the names that
-- the messages interpolate (a field's or a column's) are left out.
use lol_crawler.Prelude.Result.{Result}

pub data Error : Type 0 where
  truncated_varint varint_overflow varint_too_long : Error
  usize_range u32_range i64_range delta_range : Error
  blue_won_range tl_present_range : Error
  length_overflow truncated_bytes missing_stat_column missing_rune_column : Error
  unconsumed index_out_of_bounds : Error
  truncated_header bad_magic unsupported_version too_many_columns : Error
  truncated_manifest lengths_overflow truncated_data trailing_bytes column_count : Error
  input_record : Error
  self_check : Error

abbrev pub Try : Type 0 → Type 0
Try A = Result Error A
