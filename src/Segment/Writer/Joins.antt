-- ===== src/Segment/Writer/Joins.antt =====
-- How the pieces that a flush appends join what was there.
use lol_crawler.Prelude.{
  ℕ, ◌+◌, ◌≡◌, refl, sym, ap, ◌∙◌, true, false, Option, List, [], ◌∷◌, ◌++◌, length, take, ltb, map,
  if◌then◌else◌, append-nil, append_assoc, length-append, take_prefix, arith,
}
use lol_crawler.Columnar.Varint.{Bytes}
use lol_crawler.Segment.Index.{IdxEntry}
use lol_crawler.Segment.Index.RoundTrip.{entry_bytes, entries_bytes}
use lol_crawler.Segment.Container.Blocks.{Block, end_of, block_bytes}
use lol_crawler.Segment.Container.Read.{blocks_bytes, all_records, length-block}
use lol_crawler.Segment.Container.Locate.{at_block, locators}
use lol_crawler.Segment.Writer.{pending_entry}
use lol_crawler.Segment.Writer.Stored.{place, ids_of, offs_of, game_ids}

pub entries_bytes-append :
    (ds es : List IdxEntry) → entries_bytes (ds ++ es) ≡ entries_bytes ds ++ entries_bytes es
entries_bytes-append [] es = refl
entries_bytes-append (d ∷ ds) es =
    ap (λ t. entry_bytes d ++ t) (entries_bytes-append ds es)
    ∙ sym (append_assoc (entry_bytes d) (entries_bytes ds) (entries_bytes es))

pub game_ids-append : (ds es : List IdxEntry) → game_ids (ds ++ es) ≡ game_ids ds ++ game_ids es
game_ids-append [] es = refl
game_ids-append (d ∷ ds) es = ap (λ t. d.game_id ∷ t) (game_ids-append ds es)

pub places-pending :
    (o : ℕ) (ps : List (ℕ × ℕ)) → map place (map (pending_entry o) ps) ≡ at_block o (offs_of ps)
places-pending o [] = refl
places-pending o ((g, r) ∷ ps) = ap (λ t. (o, r) ∷ t) (places-pending o ps)

pub game_ids-pending : (o : ℕ) (ps : List (ℕ × ℕ)) → game_ids (map (pending_entry o) ps) ≡ ids_of ps
game_ids-pending o [] = refl
game_ids-pending o ((g, r) ∷ ps) = ap (λ t. g ∷ t) (game_ids-pending o ps)

pub nothing_pending : (ps : List (ℕ × ℕ)) → ids_of ps ≡ [] → ps ≡ []
nothing_pending [] e = refl
nothing_pending ((g, o) ∷ ps) e = cc

pub some_pending :
    (ps : List (ℕ × ℕ)) (i : ℕ) (is : List ℕ)
    → ids_of ps ≡ i ∷ is
    → (p : ℕ × ℕ) × (qs : List (ℕ × ℕ)) × (ps ≡ p ∷ qs)
some_pending [] i is e = cc
some_pending (p ∷ ps) i is e = (p, ps, refl)

pub locators-append :
    (pos : ℕ) (bs cs : List Block) (crc : Bytes → ℕ) (decompress : Bytes → ℕ → Option Bytes)
    → locators pos (bs ++ cs)
      ≡ locators pos bs ++ locators (pos + length (blocks_bytes crc decompress bs)) cs
locators-append pos [] cs crc decompress = ap (λ n. locators n cs) (omega arith)
locators-append pos (b ∷ bs) cs crc decompress =
    ap (λ t. at_block pos b.rec_offsets ++ t) (locators-append (end_of pos b) bs cs crc decompress)
    ∙ sym (append_assoc (at_block pos b.rec_offsets) (locators (end_of pos b) bs) _)
    ∙ ap (λ n. (at_block pos b.rec_offsets ++ locators (end_of pos b) bs) ++ locators n cs)
        (omega (
          arith,
          length-append (block_bytes crc decompress b) (blocks_bytes crc decompress bs),
          length-block crc decompress b,
        ))

module _ (crc : Bytes → ℕ) (decompress : Bytes → ℕ → Option Bytes) where
  pub blocks_bytes-append :
      (bs cs : List Block)
      → blocks_bytes crc decompress (bs ++ cs)
        ≡ blocks_bytes crc decompress bs ++ blocks_bytes crc decompress cs
  blocks_bytes-append [] cs = refl
  blocks_bytes-append (b ∷ bs) cs =
      ap (λ t. block_bytes crc decompress b ++ t) (blocks_bytes-append bs cs)
      ∙ sym (append_assoc (block_bytes crc decompress b) (blocks_bytes crc decompress bs) _)

  pub all_records-append :
      (bs cs : List Block)
      → all_records crc decompress (bs ++ cs)
        ≡ all_records crc decompress bs ++ all_records crc decompress cs
  all_records-append [] cs = refl
  all_records-append (b ∷ bs) cs =
      ap (λ t. b.records ++ t) (all_records-append bs cs)
      ∙ sym (append_assoc b.records (all_records crc decompress bs) _)

pub cut_tail :
    (seg tail : Bytes)
    → (if ltb (length seg) (length (seg ++ tail))
        then take (length seg) (seg ++ tail)
        else seg ++ tail)
      ≡ seg
cut_tail seg [] =
    let e = append-nil seg in
    let same : ltb (length seg) (length (seg ++ [])) ≡ false = ground (arith, ap length e) in
    rw same e
cut_tail seg (t ∷ tail) =
    let longer : ltb (length seg) (length (seg ++ (t ∷ tail))) ≡ true =
      ground (arith, length-append seg (t ∷ tail)) in
    rw longer (take_prefix seg (t ∷ tail))
