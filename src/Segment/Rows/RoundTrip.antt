-- ===== src/Segment/Rows/RoundTrip.antt =====
-- The rows that were pushed are read back, with the offsets that they were pushed at.
use lol_crawler.Prelude.{
  ℕ, zero, suc, ◌+◌, ◌%◌, ◌^◌, ◌<◌, ◌≤◌, ◌≡◌, ◌≢◌, refl, sym, ap, ◌∙◌, Bool, true, false, List, [],
  ◌∷◌, ◌++◌, length, take, drop, leb, ltb, append-nil, append_assoc, length-append, length-drop,
  take_prefix, drop_prefix, drop-drop, All, arith,
}
use lol_crawler.Prelude.Result.{ok, err}
use lol_crawler.Columnar.Varint.{Bytes}
use lol_crawler.Segment.Error.{out_of_rounds}
use lol_crawler.Segment.Little.{to_le, le_at, length-to_le, le_at-to_le, drop-to_le}
use lol_crawler.Segment.Rows.{push_row, row_loop, decode_row_block}

-- A record whose length fits a u32.
abbrev pub IsRow : Bytes → Type 0
IsRow r = length r < 2 ^ 32

abbrev pub row : Bytes → Bytes
row r = to_le 4 (length r) ++ r

abbrev pub rows : List Bytes → Bytes
rows [] = []
rows (r ∷ rs) = row r ++ rows rs

-- The offsets of rows that start at `off`.
abbrev pub row_offsets : ℕ → List Bytes → List ℕ
row_offsets off [] = []
row_offsets off (r ∷ rs) = off ∷ row_offsets (off + 4 + length r) rs

pub push_row-row : (buf r : Bytes) → IsRow r → push_row buf r ≡ buf ++ row r
unfolding push_row
push_row-row buf r h = let e : length r % 2 ^ 32 ≡ length r = omega arith in rw e

pub rows-append : (rs ss : List Bytes) → rows (rs ++ ss) ≡ rows rs ++ rows ss
rows-append [] ss = refl
rows-append (r ∷ rs) ss = ap (λ t. row r ++ t) (rows-append rs ss) ∙ sym (append_assoc (row r) _ _)

pub length-row : (r : Bytes) → length (row r) ≡ 4 + length r
length-row r = omega (arith, length-append (to_le 4 (length r)) r, length-to_le 4 (length r))

length-rows : (rs : List Bytes) → length rs ≤ length (rows rs)
length-rows [] = omega arith
length-rows (r ∷ rs) = omega (arith, length-rows rs, length-append (row r) (rows rs), length-row r)

row_loop-rows :
    (rs : List Bytes) (rounds : ℕ) (strict : Bool) (block : Bytes) (off : ℕ) (records : List Bytes)
    (offsets : List ℕ)
    → All IsRow rs
    → length rs < rounds
    → length block < 2 ^ 32
    → off ≤ length block
    → drop off block ≡ rows rs
    → row_loop rounds strict block off records offsets
      ≡ ok (records ++ rs, offsets ++ row_offsets off rs)
unfolding row_loop
row_loop-rows rs zero strict block off records offsets h few size within e = absurd (omega arith)
row_loop-rows [] (suc rounds) strict block off records offsets h few size within e =
    let len = length-drop off block in
    let done : ltb off (length block) ≡ false = ground (arith, len, ap length e) in
    rw done (rw append-nil (rw append-nil refl))
row_loop-rows (r ∷ rs) (suc rounds) strict block off records offsets h few size within e =
    let room : length block ≡ off + (4 + length r + length (rows rs)) =
      omega (
        arith,
        length-drop off block,
        ap length e,
        length-append (row r) (rows rs),
        length-row r,
      ) in
    let e' : drop off block ≡ to_le 4 (length r) ++ (r ++ rows rs) =
      e ∙ append_assoc _ r (rows rs) in
    let rlen : le_at 4 block off ≡ length r =
      le_at-to_le 4 (length r) block off (r ++ rows rs) (omega (arith, h.0)) e' in
    let behind : drop (off + 4) block ≡ r ++ rows rs =
      drop-to_le 4 (length r) block off (r ++ rows rs) e' in
    let body : take (length r) (drop (off + 4) block) ≡ r =
      ap (take (length r)) behind ∙ take_prefix r (rows rs) in
    let after : drop (off + 4 + length r) block ≡ rows rs =
      sym (drop-drop (off + 4) (length r) block)
      ∙ ap (drop (length r)) behind
      ∙ drop_prefix r (rows rs) in
    let c1 : ltb off (length block) ≡ true = ground (arith, room) in
    let c2 : leb (off + 4) (length block) ≡ true = ground (arith, room) in
    let c3 : ltb off (2 ^ 32) ≡ true = ground (arith, room) in
    let c4 : leb (off + 4 + length r) (length block) ≡ true = ground (arith, room) in
    rw (rlen, body)
      (rw (c1, c2, c3, c4)
        (row_loop-rows rs rounds strict block (off + 4 + length r) (records ++ (r ∷ []))
            (offsets ++ (off ∷ [])) h.1 (omega arith) size (omega (arith, room)) after
          ∙ ap (λ t. ok (t, (offsets ++ (off ∷ [])) ++ row_offsets (off + 4 + length r) rs))
              (append_assoc records (r ∷ []) rs)
          ∙ ap (λ t. ok (records ++ (r ∷ rs), t)) (append_assoc offsets (off ∷ []) _)))

-- A block of rows that fits a u32 is decoded to its records and their offsets, strictly or not.
pub decode_row_block-rows :
    (rs : List Bytes) (strict : Bool)
    → All IsRow rs
    → length (rows rs) < 2 ^ 32
    → decode_row_block (rows rs) strict ≡ ok (rs, row_offsets 0 rs)
unfolding decode_row_block
decode_row_block-rows rs strict h size =
    row_loop-rows rs (suc (length (rows rs))) strict (rows rs) 0 [] [] h
      (omega (arith, length-rows rs)) size (omega arith) refl

row_loop-finishes :
    (rounds : ℕ) (strict : Bool) (block : Bytes) (off : ℕ) (records : List Bytes) (offsets : List ℕ)
    → off ≤ length block
    → length block < off + rounds
    → row_loop rounds strict block off records offsets ≢ err out_of_rounds
unfolding row_loop
row_loop-finishes zero strict block off records offsets within h = absurd (omega arith)
row_loop-finishes (suc rounds) true block off records offsets within h = ground (
  arith,
  row_loop-finishes rounds true block (off + 4 + le_at 4 block off)
      (records ++ (take (le_at 4 block off) (drop (off + 4) block) ∷ [])) (offsets ++ (off ∷ [])),
)
row_loop-finishes (suc rounds) false block off records offsets within h = ground (
  arith,
  row_loop-finishes rounds false block (off + 4 + le_at 4 block off)
      (records ++ (take (le_at 4 block off) (drop (off + 4) block) ∷ [])) (offsets ++ (off ∷ [])),
)

-- Whatever the block holds, its decoding comes to an end within the rounds it is given.
pub decode_row_block-finishes :
    (block : Bytes) (strict : Bool) → decode_row_block block strict ≢ err out_of_rounds
unfolding decode_row_block
decode_row_block-finishes block strict =
    row_loop-finishes (suc (length block)) strict block 0 [] [] (omega arith) (omega arith)
