-- ===== src/Segment/Rows.antt =====
-- The rows of a block: `SegmentWriter::append` and `decode_row_block` of
-- crates/server/src/storage.rs.
pub mod RoundTrip
use lol_crawler.Prelude.{
  ℕ, zero, suc, ◌+◌, ◌%◌, ◌^◌, Bool, true, false, List, [], ◌∷◌, ◌++◌, length, take, drop, leb, ltb,
  if◌then◌else◌,
}
use lol_crawler.Prelude.Result.{ok, err, ensure, ◌>>=◌, ◌>>◌}
use lol_crawler.Columnar.Varint.{Bytes}
use lol_crawler.Segment.Error.{
  Error, Try, truncated_length, truncated_body, offset_range, out_of_rounds,
}
use lol_crawler.Segment.Little.{to_le, le_at}

-- `buf` with one record more: its length as a u32, then its bytes.
unfoldable pub push_row : Bytes → Bytes → Bytes
push_row buf bytes = buf ++ (to_le 4 (length bytes % 2 ^ 32) ++ bytes)

-- Where the loop stops short: an error if `strict`.
abbrev pub stops : {A : Type 0} → Bool → Error → A → Try A
stops true e a = err e
stops false e a = ok a

unfoldable pub row_loop : ℕ → Bool → Bytes → ℕ → List Bytes → List ℕ → Try (List Bytes × List ℕ)
row_loop zero strict block off records rec_offsets = err out_of_rounds
row_loop (suc rounds) strict block off records rec_offsets =
    let rlen = le_at 4 block off in
    let body = take rlen (drop (off + 4) block) in
    let rest =
      row_loop rounds strict block (off + 4 + rlen) (records ++ (body ∷ []))
        (rec_offsets ++ (off ∷ [])) in
    if ltb off (length block)
    then (if leb (off + 4) (length block)
        then (if ltb off (2 ^ 32)
            then (if leb (off + 4 + rlen) (length block)
                then rest
                else stops strict truncated_body (records, rec_offsets))
            else err offset_range)
        else stops strict truncated_length (records, rec_offsets))
    else ok (records, rec_offsets)

-- Each round takes four bytes at least.
unfoldable pub decode_row_block : Bytes → Bool → Try (List Bytes × List ℕ)
decode_row_block block strict = row_loop (suc (length block)) strict block 0 [] []
