-- ===== src/Segment/Index/RoundTrip.antt =====
-- The entries that were written are parsed.
use lol_crawler.Prelude.{
  ◌*◌, ◌/◌, ◌%◌, ◌≡◌, refl, sym, ap, ◌∙◌, some, List, [], ◌∷◌, ◌++◌, length, take, drop, ◌==◌, true,
  append-nil, append_assoc, length-append, take_prefix, drop_prefix, All, arith,
}
use lol_crawler.Prelude.Int.{IsU32, IsU64}
use lol_crawler.Columnar.Varint.{Bytes}
use lol_crawler.Segment.Little.{to_le, length-to_le, le_at-to_le, drop-to_le}
use lol_crawler.Segment.Index.{IdxEntry, write_entries, entry_of, read_entries, parse_idx_entries}

pub record IsEntry (e : IdxEntry) : Type 0 where
  pub game_id : IsU64 e.game_id
  pub block_off : IsU64 e.block_off
  pub rec_off : IsU32 e.rec_off

abbrev pub entry_bytes : IdxEntry → Bytes
entry_bytes e = to_le 8 e.game_id ++ (to_le 8 e.block_off ++ to_le 4 e.rec_off)

abbrev pub entries_bytes : List IdxEntry → Bytes
entries_bytes [] = []
entries_bytes (e ∷ es) = entry_bytes e ++ entries_bytes es

pub write_entries-append :
    (buf : Bytes) (es : List IdxEntry) → write_entries buf es ≡ buf ++ entries_bytes es
unfolding write_entries
write_entries-append buf [] = sym (append-nil buf)
write_entries-append buf (e ∷ es) =
    write_entries-append (buf ++ entry_bytes e) es ∙ append_assoc buf (entry_bytes e) _

length-entry : (e : IdxEntry) → length (entry_bytes e) ≡ 20
length-entry e = omega (
  arith,
  length-append (to_le 8 e.game_id) (to_le 8 e.block_off ++ to_le 4 e.rec_off),
  length-append (to_le 8 e.block_off) (to_le 4 e.rec_off),
  length-to_le 8 e.game_id,
  length-to_le 8 e.block_off,
  length-to_le 4 e.rec_off,
)

length-entries : (es : List IdxEntry) → length (entries_bytes es) ≡ 20 * length es
length-entries [] = omega arith
length-entries (e ∷ es) =
    omega
      (arith, length-entries es, length-entry e, length-append (entry_bytes e) (entries_bytes es))

entry_of-bytes : (e : IdxEntry) → IsEntry e → entry_of (entry_bytes e) ≡ e
entry_of-bytes e h =
    let a = le_at-to_le 8 e.game_id (entry_bytes e) 0 _ (omega (arith, h.game_id)) refl in
    let d8 = drop-to_le 8 e.game_id (entry_bytes e) 0 _ refl in
    let b = le_at-to_le 8 e.block_off (entry_bytes e) 8 _ (omega (arith, h.block_off)) d8 in
    let d16 = drop-to_le 8 e.block_off (entry_bytes e) 8 _ d8 in
    let c =
      le_at-to_le 4 e.rec_off (entry_bytes e) 16 [] (omega (arith, h.rec_off))
        (d16 ∙ sym (append-nil _)) in
    λ i. record { game_id = a i; block_off = b i; rec_off = c i }

read_entries-bytes :
    (es : List IdxEntry) → All IsEntry es → read_entries (length es) (entries_bytes es) ≡ es
unfolding read_entries
read_entries-bytes [] h = refl
read_entries-bytes (e ∷ es) h =
    let bs : Bytes = entry_bytes e ++ entries_bytes es in
    let front : take 20 bs ≡ entry_bytes e =
      ap (λ n. take n bs) (sym (length-entry e)) ∙ take_prefix (entry_bytes e) _ in
    let rest : drop 20 bs ≡ entries_bytes es =
      ap (λ n. drop n bs) (sym (length-entry e)) ∙ drop_prefix (entry_bytes e) _ in
    rw (front, rest) (rw (entry_of-bytes e h.0, read_entries-bytes es h.1) refl)

-- Entries in the ranges of their integers are parsed from what was written for them.
pub parse_idx_entries-write_entries :
    (es : List IdxEntry) → All IsEntry es → parse_idx_entries (write_entries [] es) ≡ some es
unfolding parse_idx_entries
parse_idx_entries-write_entries es h =
    let len = length-entries es in
    let whole : (length (entries_bytes es) % 20 == 0) ≡ true = ground (arith, len) in
    let count : length (entries_bytes es) / 20 ≡ length es = omega (arith, len) in
    rw (write_entries-append [] es) (rw (whole, count) (ap some (read_entries-bytes es h)))
