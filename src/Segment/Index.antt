-- ===== src/Segment/Index.antt =====
-- The index entries of crates/server/src/storage.rs: twenty bytes for each record.
pub mod RoundTrip
use lol_crawler.Prelude.{
  ℕ, zero, suc, ◌+◌, ◌/◌, ◌%◌, ◌^◌, Option, none, some, List, [], ◌∷◌, ◌++◌, length, take, drop,
  ◌==◌, ◌&&◌, Bool, true, false, if◌then◌else◌,
}
use lol_crawler.Columnar.Varint.{Bytes}
use lol_crawler.Segment.Little.{to_le, le_at}

pub record IdxEntry : Type 0 where
  pub game_id : ℕ
  pub block_off : ℕ
  pub rec_off : ℕ

unfoldable pub write_entries : Bytes → List IdxEntry → Bytes
write_entries buf [] = buf
write_entries buf (e ∷ es) =
    write_entries (buf ++ (to_le 8 e.game_id ++ (to_le 8 e.block_off ++ to_le 4 e.rec_off))) es

-- One of `chunks_exact(20)`.
abbrev pub entry_of : Bytes → IdxEntry
entry_of chunk = record {
  game_id = le_at 8 chunk 0;
  block_off = le_at 8 chunk 8;
  rec_off = le_at 4 chunk 16;
}

-- `n` chunks from the front.
unfoldable pub read_entries : ℕ → Bytes → List IdxEntry
read_entries zero bytes = []
read_entries (suc n) bytes = entry_of (take 20 bytes) ∷ read_entries n (drop 20 bytes)

unfoldable pub parse_idx_entries : Bytes → Option (List IdxEntry)
parse_idx_entries bytes =
    if length bytes % 20 == 0 then some (read_entries (length bytes / 20) bytes) else none

abbrev pub entries_eq : List IdxEntry → List IdxEntry → Bool
entries_eq [] [] = true
entries_eq (a ∷ as') (b ∷ bs) =
    a.game_id == b.game_id
    && (a.block_off == b.block_off && (a.rec_off == b.rec_off && entries_eq as' bs))
entries_eq _ _ = false
