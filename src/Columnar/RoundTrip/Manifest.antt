-- ===== src/Columnar/RoundTrip/Manifest.antt =====
-- The manifest that `parse` reads is the one that `encode_payload` wrote.
use lol_crawler.Prelude.{
  ℕ, ◌+◌, ◌-◌, ◌≤◌, ◌≡◌, refl, sym, ap, ◌∙◌, List, [], ◌∷◌, ◌++◌, length, take, drop, arith,
  append_assoc, append-nil, length-append, length-drop, drop-drop, take_prefix, drop_prefix, All,
  true, leb,
}
use lol_crawler.Prelude.Int.{IsU64}
use lol_crawler.Prelude.Result.{ok}
use lol_crawler.Columnar.Error.{lengths_overflow}
use lol_crawler.Columnar.Varint.{Bytes, varint}
use lol_crawler.Columnar.Varint.RoundTrip.{read_varint_at-varint}
use lol_crawler.Columnar.Delta.Laws.{to_usize-ok}
use lol_crawler.Columnar.Stream.{nmisc}
use lol_crawler.Columnar.Cols.{Cols}
use lol_crawler.Columnar.Payload.{
  lengths, streams, read_usize, read_lengths, slices, parse_columns, parse_counts, parse,
}
use lol_crawler.Columnar.RoundTrip.Payload.{
  joined, length_varints, layout, sum_lengths-ok, length-length_varints, All-length, length-streams,
  layout-Bounds,
}

-- A count is read where it stands, and the position behind it is within the payload.
read_usize-varint :
    (v : ℕ) (payload : Bytes) (pos : ℕ) (rest : Bytes)
    → IsU64 v
    → drop pos payload ≡ varint v ++ rest
    → (pos' : ℕ) × (read_usize payload pos ≡ ok (v, pos'))
      × (drop pos' payload ≡ rest)
      × (pos' ≤ length payload)
unfolding read_usize
read_usize-varint v payload pos rest h e =
    let (pos', r, d, within) = read_varint_at-varint v payload pos rest h e in
    (pos', rw (r, to_usize-ok v h), d, within)

read_lengths-varints :
    (cols : List Bytes) (payload : Bytes) (pos : ℕ) (rest : Bytes) (lens : List ℕ)
    → All (λ col. IsU64 (length col)) cols
    → drop pos payload ≡ length_varints cols ++ rest
    → pos ≤ length payload
    → (pos' : ℕ) × (read_lengths (length cols) payload pos lens ≡ ok (lens ++ lengths cols, pos'))
      × (drop pos' payload ≡ rest)
      × (pos' ≤ length payload)
unfolding read_lengths
read_lengths-varints [] payload pos rest lens h e within = (pos, rw append-nil, e, within)
read_lengths-varints (col ∷ cols) payload pos rest lens h e within =
    let (pos1, r1, d1, w1) =
      read_usize-varint (length col) payload pos (length_varints cols ++ rest) h.0
        (e ∙ append_assoc (varint (length col)) _ rest) in
    let (pos2, r2, d2, w2) =
      read_lengths-varints cols payload pos1 rest (lens ++ (length col ∷ [])) h.1 d1 w1 in
    (pos2, rw r1 (r2 ∙ ap (λ t. ok (t, pos2)) (append_assoc lens _ _)), d2, w2)

slices-joined :
    (cols : List Bytes) (payload : Bytes) (off : ℕ)
    → drop off payload ≡ joined cols
    → slices payload off (lengths cols) ≡ cols
unfolding slices
slices-joined [] payload off e = refl
slices-joined (col ∷ cols) payload off e =
    let here : take (length col) (drop off payload) ≡ col =
      ap (take (length col)) e ∙ take_prefix col _ in
    let rest : drop (off + length col) payload ≡ joined cols =
      sym (drop-drop off (length col) payload) ∙ ap (drop (length col)) e ∙ drop_prefix col _ in
    cc (here, slices-joined cols payload (off + length col) rest)

parse_columns-streams :
    (records : ℕ) (cols : Cols) (payload : Bytes) (pos : ℕ)
    → length cols.fixed ≡ nmisc
    → IsU64 (length payload)
    → pos ≤ length payload
    → drop pos payload ≡ length_varints (streams cols) ++ joined (streams cols)
    → parse_columns payload pos records (length cols.stat) (length cols.rune)
      ≡ ok (record {
        records = records;
        stat_cols = length cols.stat;
        rune_cols = length cols.rune;
        columns = streams cols;
      })
unfolding parse_columns
parse_columns-streams records cols payload pos size fits within e =
    let all : List Bytes = streams cols in
    let room : length payload - pos ≡ length (length_varints all) + length (joined all) = omega (
      arith,
      length-drop pos payload,
      ap length e,
      length-append (length_varints all) (joined all),
    ) in
    let each : All (λ col. IsU64 (length col)) all = All-length all (omega arith) in
    let (start, read, rest, inside) =
      read_lengths-varints all payload pos (joined all) [] each e within in
    let streams_len : length payload - start ≡ length (joined all) =
      omega (arith, length-drop start payload, ap length rest) in
    ground (
      arith,
      length-streams cols size,
      length-length_varints all each,
      room,
      streams_len,
      read,
      sum_lengths-ok lengths_overflow all 0 (omega arith),
      slices-joined all payload start rest,
    )

parse_counts-streams :
    (records : ℕ) (cols : Cols) (payload : Bytes)
    → length cols.fixed ≡ nmisc
    → IsU64 records
    → IsU64 (length payload)
    → IsU64 (length cols.stat)
    → IsU64 (length cols.rune)
    → drop 5 payload
      ≡ varint records
        ++ (varint (length cols.stat)
            ++ (varint (length cols.rune)
                ++ (length_varints (streams cols) ++ joined (streams cols))))
    → parse_counts payload
      ≡ ok (record {
        records = records;
        stat_cols = length cols.stat;
        rune_cols = length cols.rune;
        columns = streams cols;
      })
unfolding parse_counts
parse_counts-streams records cols payload size hr fits hs hn e =
    let (pos1, r1, d1, w1) = read_usize-varint records payload 5 _ hr e in
    let (pos2, r2, d2, w2) = read_usize-varint (length cols.stat) payload pos1 _ hs d1 in
    let (pos3, r3, d3, w3) = read_usize-varint (length cols.rune) payload pos2 _ hn d2 in
    rw r1 (rw r2 (rw r3 (parse_columns-streams records cols payload pos3 size fits w3 d3)))

-- With all the fixed streams there, and a count and a payload that fit a usize, `parse` returns
-- the counts and the streams that the payload was laid out from.
pub parse-layout :
    (records : ℕ) (cols : Cols)
    → length cols.fixed ≡ nmisc
    → IsU64 records
    → IsU64 (length (layout records cols))
    → parse (layout records cols)
      ≡ ok (record {
        records = records;
        stat_cols = length cols.stat;
        rune_cols = length cols.rune;
        columns = streams cols;
      })
unfolding parse
parse-layout records cols size hr fits =
    let b = layout-Bounds records cols fits in
    let n = length-streams cols size in
    let header : leb 5 (length (layout records cols)) ≡ true = ground (arith, b.whole) in
    rw header (
      parse_counts-streams records cols (layout records cols) size hr fits
        (omega (arith, b.counted, b.whole)) (omega (arith, b.counted, b.whole)) refl)
