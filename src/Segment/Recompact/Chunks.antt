-- ===== src/Segment/Recompact/Chunks.antt =====
-- The chunks of the records, and the entries of a chunk.
use lol_crawler.Prelude.{
  ℕ, zero, suc, ◌<◌, ◌≤◌, ◌≡◌, refl, ap, ◌∙◌, true, Option, some, List, [], ◌∷◌, ◌++◌, map, length,
  take, drop, ==_self, length-drop, All, arith,
}
use lol_crawler.Prelude.Result.{ok}
use lol_crawler.Columnar.Varint.{Bytes}
use lol_crawler.Columnar.RoundTrip.Whole.{bytes_eq_self}
use lol_crawler.Record.{MatchRecord}
use lol_crawler.Segment.Index.{IdxEntry}
use lol_crawler.Segment.Container.{ordinals}
use lol_crawler.Segment.Container.Locate.{at_block}
use lol_crawler.Segment.Writer.Stored.{place}
use lol_crawler.Segment.Layout.{entries_of}
use lol_crawler.Segment.Recompact.{all_same, verify_rewrite, chunks}

-- Records that prost decodes.
abbrev pub IsDecodable : (Bytes → Option MatchRecord) → Bytes → Type 0
IsDecodable decode raw = (rec : MatchRecord) × (decode raw ≡ some rec)

pub length-ordinals : (n : ℕ) (rs : List Bytes) → length (ordinals n rs) ≡ length rs
length-ordinals n [] = refl
length-ordinals n (r ∷ rs) = ap suc (length-ordinals (suc n) rs)

pub entries_of-decodable :
    (decode : Bytes → Option MatchRecord) (off : ℕ) (raws : List Bytes) (offs : List ℕ)
    → length raws ≡ length offs
    → All (IsDecodable decode) raws
    → (es : List IdxEntry) × (entries_of decode off raws offs ≡ ok es)
      × (map place es ≡ at_block off offs)
unfolding entries_of
entries_of-decodable decode off [] [] n h = ([], refl, refl)
entries_of-decodable decode off (r ∷ rs) (o ∷ os) n h =
    let (es, e, p) = entries_of-decodable decode off rs os (omega arith) h.1 in
    let entry : IdxEntry = record { game_id = h.0.0.game_id; block_off = off; rec_off = o } in
    (entry ∷ es, rw (h.0.1, e) refl, ap (λ t. (off, o) ∷ t) p)
entries_of-decodable decode off [] (o ∷ os) n h = absurd (omega arith)
entries_of-decodable decode off (r ∷ rs) [] n h = absurd (omega arith)

abbrev pub concat : List (List Bytes) → List Bytes
concat [] = []
concat (c ∷ cs) = c ++ concat cs

pub take-drop : (n : ℕ) (xs : List Bytes) → take n xs ++ drop n xs ≡ xs
take-drop zero xs = refl
take-drop (suc n) [] = refl
take-drop (suc n) (x ∷ xs) = ap (λ t. x ∷ t) (take-drop n xs)

pub concat-chunks :
    (rounds n : ℕ) (xs : List Bytes) → 0 < n → length xs ≤ rounds → concat (chunks rounds n xs) ≡ xs
unfolding chunks
concat-chunks zero n [] pos_n h = refl
concat-chunks zero n (x ∷ xs) pos_n h = absurd (omega arith)
concat-chunks (suc rounds) n [] pos_n h = refl
concat-chunks (suc rounds) n (x ∷ xs) pos_n h =
    ap (λ t. take n (x ∷ xs) ++ t)
      (concat-chunks rounds n (drop n (x ∷ xs)) pos_n (omega (arith, length-drop n (x ∷ xs))))
    ∙ take-drop n (x ∷ xs)

pub length-chunks : (rounds n : ℕ) (xs : List Bytes) → length (chunks rounds n xs) ≤ rounds
unfolding chunks
length-chunks zero n xs = omega arith
length-chunks (suc rounds) n [] = omega arith
length-chunks (suc rounds) n (x ∷ xs) = omega (arith, length-chunks rounds n (drop n (x ∷ xs)))

pub all_same_self : (rs : List Bytes) → all_same rs rs ≡ true
all_same_self [] = refl
all_same_self (r ∷ rs) = rw (bytes_eq_self r) (all_same_self rs)

pub verify_rewrite_self : (rs : List Bytes) → verify_rewrite rs rs ≡ ok tt
unfolding verify_rewrite
verify_rewrite_self rs = rw (==_self (length rs), all_same_self rs) refl
