-- ===== src/Segment/Writer/Stored.antt =====
-- What a writer has stored and what it still holds, and that appending and flushing keep it so.
use lol_crawler.Prelude.{
  ℕ, ◌+◌, ◌%◌, ◌^◌, ◌<◌, ◌≡◌, refl, sym, ap, subst, ◌∙◌, Option, List, [], ◌∷◌, ◌++◌, length, map,
  append-nil, length-append, All, All-append, arith,
}
use lol_crawler.Columnar.Varint.{Bytes}
use lol_crawler.Record.{MatchRecord}
use lol_crawler.Segment.Rows.RoundTrip.{
  IsRow, row, rows, row_offsets, push_row-row, rows-append, length-row,
}
use lol_crawler.Segment.Index.{IdxEntry}
use lol_crawler.Segment.Index.RoundTrip.{entries_bytes}
use lol_crawler.Segment.Container.Blocks.{Block, IsIntact}
use lol_crawler.Segment.Container.Read.{blocks_bytes, all_records}
use lol_crawler.Segment.Container.Locate.{locators, IsPlaced}
use lol_crawler.Segment.Writer.{SegmentWriter, append}

abbrev pub place : IdxEntry → ℕ × ℕ
place e = (e.block_off, e.rec_off)

abbrev pub ids_of : List (ℕ × ℕ) → List ℕ
ids_of [] = []
ids_of ((g, o) ∷ ps) = g ∷ ids_of ps

abbrev pub offs_of : List (ℕ × ℕ) → List ℕ
offs_of [] = []
offs_of ((g, o) ∷ ps) = o ∷ offs_of ps

abbrev pub game_ids : List IdxEntry → List ℕ
game_ids [] = []
game_ids (e ∷ es) = e.game_id ∷ game_ids es

abbrev pub games : List MatchRecord → List ℕ
games [] = []
games (rec ∷ recs) = rec.game_id ∷ games recs

ids_of-append : (ps qs : List (ℕ × ℕ)) → ids_of (ps ++ qs) ≡ ids_of ps ++ ids_of qs
ids_of-append [] qs = refl
ids_of-append ((g, o) ∷ ps) qs = ap (λ t. g ∷ t) (ids_of-append ps qs)

offs_of-append : (ps qs : List (ℕ × ℕ)) → offs_of (ps ++ qs) ≡ offs_of ps ++ offs_of qs
offs_of-append [] qs = refl
offs_of-append ((g, o) ∷ ps) qs = ap (λ t. o ∷ t) (offs_of-append ps qs)

pub games-append : (rs ss : List MatchRecord) → games (rs ++ ss) ≡ games rs ++ games ss
games-append [] ss = refl
games-append (r ∷ rs) ss = ap (λ t. r.game_id ∷ t) (games-append rs ss)

row_offsets-append :
    (off : ℕ) (rs : List Bytes) (r : Bytes)
    → row_offsets off (rs ++ (r ∷ [])) ≡ row_offsets off rs ++ ((off + length (rows rs)) ∷ [])
row_offsets-append off [] r = ap (λ n. n ∷ []) (omega arith)
row_offsets-append off (s ∷ rs) r =
    ap (λ t. off ∷ t)
      (row_offsets-append (off + 4 + length s) rs r
        ∙ ap (λ n. row_offsets (off + 4 + length s) rs ++ (n ∷ []))
            (omega (arith, length-append (row s) (rows rs), length-row s)))

pub map-append :
    {A B : Type 0} (f : A → B) (xs ys : List A) → map f (xs ++ ys) ≡ map f xs ++ map f ys
map-append f [] ys = refl
map-append f (x ∷ xs) ys = ap (λ t. f x ∷ t) (map-append f xs ys)

module _ (crc : Bytes → ℕ) (compress : Bytes → Option Bytes) (decompress : Bytes → ℕ → Option Bytes)
    (encode_to_vec : MatchRecord → Bytes) where
  -- `stored` stands in the files, in whole row blocks, and `waiting` in memory.
  pub record IsWriter (w : SegmentWriter) (stored waiting : List MatchRecord) : Type 0 where
    pub blocks : List Block
    pub entries : List IdxEntry
    pub intact : All (IsIntact crc decompress) blocks
    pub is_placed : All (IsPlaced crc decompress) blocks
    pub seg : w.seg ≡ blocks_bytes crc decompress blocks
    pub records : all_records crc decompress blocks ≡ map encode_to_vec stored
    pub idx : w.idx ≡ entries_bytes entries
    pub places : map place entries ≡ locators 0 blocks
    pub ids : game_ids entries ≡ games stored
    pub buf : w.buf ≡ rows (map encode_to_vec waiting)
    pub row_sizes : All IsRow (map encode_to_vec waiting)
    pub offsets : offs_of w.pending ≡ row_offsets 0 (map encode_to_vec waiting)
    pub pending_ids : ids_of w.pending ≡ games waiting

  -- While the buffer fits a u32, a record that is appended waits behind the others.
  pub append-IsWriter :
      (w : SegmentWriter) (stored waiting : List MatchRecord) (rec : MatchRecord)
      → IsWriter w stored waiting
      → length w.buf < 2 ^ 32
      → IsRow (encode_to_vec rec)
      → IsWriter (append encode_to_vec w rec) stored (waiting ++ (rec ∷ []))
  unfolding append
  append-IsWriter w stored waiting rec h size fits =
      let new : map encode_to_vec (waiting ++ (rec ∷ []))
          ≡ map encode_to_vec waiting ++ (encode_to_vec rec ∷ []) =
        map-append encode_to_vec waiting (rec ∷ []) in
      let off : length w.buf % 2 ^ 32 ≡ 0 + length (rows (map encode_to_vec waiting)) =
        omega (arith, ap length h.buf) in
      record {
        blocks = h.blocks;
        entries = h.entries;
        intact = h.intact;
        is_placed = h.is_placed;
        seg = h.seg;
        records = h.records;
        idx = h.idx;
        places = h.places;
        ids = h.ids;
        buf =
            push_row-row w.buf (encode_to_vec rec) fits
            ∙ ap (λ t. t ++ row (encode_to_vec rec)) h.buf
            ∙ ap (λ t. rows (map encode_to_vec waiting) ++ t)
                (sym (append-nil (row (encode_to_vec rec))))
            ∙ sym (rows-append (map encode_to_vec waiting) (encode_to_vec rec ∷ []))
            ∙ ap rows (sym new);
        row_sizes =
            subst (All IsRow) (sym new)
              (All-append IsRow _ (encode_to_vec rec ∷ []) h.row_sizes (fits, tt));
        offsets =
            offs_of-append w.pending ((rec.game_id, length w.buf % 2 ^ 32) ∷ [])
            ∙ ap (λ t. t ++ ((length w.buf % 2 ^ 32) ∷ [])) h.offsets
            ∙ ap (λ n. row_offsets 0 (map encode_to_vec waiting) ++ (n ∷ [])) off
            ∙ sym (row_offsets-append 0 (map encode_to_vec waiting) (encode_to_vec rec))
            ∙ ap (row_offsets 0) (sym new);
        pending_ids =
            ids_of-append w.pending ((rec.game_id, length w.buf % 2 ^ 32) ∷ [])
            ∙ ap (λ t. t ++ (rec.game_id ∷ [])) h.pending_ids
            ∙ sym (games-append waiting (rec ∷ []));
      }
