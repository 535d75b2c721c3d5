-- ===== src/Segment/Little.antt =====
-- `to_le_bytes` and `from_le_bytes` of the unsigned integers, by their number of bytes.
use lol_crawler.Prelude.{
  ℕ, zero, suc, ◌+◌, ◌*◌, ◌/◌, ◌%◌, ◌<◌, ◌≡◌, refl, sym, ap, ◌∙◌, [], ◌∷◌, ◌++◌, length, take, drop,
  take_prefix, drop_prefix, drop-drop, arith,
}
use lol_crawler.Columnar.Varint.{Bytes}

unfoldable pub to_le : ℕ → ℕ → Bytes
to_le zero v = []
to_le (suc n) v = v % 256 ∷ to_le n (v / 256)

abbrev pub from_le : Bytes → ℕ
from_le [] = 0
from_le (b ∷ bs) = b + 256 * from_le bs

-- How many values `n` bytes have.
abbrev pub limit : ℕ → ℕ
limit zero = 1
limit (suc n) = 256 * limit n

-- `from_le_bytes(bytes[off..off + n])`.
unfoldable pub le_at : ℕ → Bytes → ℕ → ℕ
le_at n bytes off = from_le (take n (drop off bytes))

pub length-to_le : (n v : ℕ) → length (to_le n v) ≡ n
unfolding to_le
length-to_le zero v = refl
length-to_le (suc n) v = ap suc (length-to_le n (v / 256))

pub from_le-to_le : (n v : ℕ) → v < limit n → from_le (to_le n v) ≡ v
unfolding to_le
from_le-to_le zero v h = omega arith
from_le-to_le (suc n) v h = omega (arith, from_le-to_le n (v / 256) (omega arith))

-- An integer is read where its bytes stand, whatever follows.
pub le_at-to_le :
    (n v : ℕ) (bytes : Bytes) (off : ℕ) (rest : Bytes)
    → v < limit n
    → drop off bytes ≡ to_le n v ++ rest
    → le_at n bytes off ≡ v
unfolding le_at
le_at-to_le n v bytes off rest h e =
    ap (λ t. from_le (take n t)) e
    ∙ ap (λ k. from_le (take k (to_le n v ++ rest))) (sym (length-to_le n v))
    ∙ ap from_le (take_prefix (to_le n v) rest)
    ∙ from_le-to_le n v h

pub drop-to_le :
    (n v : ℕ) (bytes : Bytes) (off : ℕ) (rest : Bytes)
    → drop off bytes ≡ to_le n v ++ rest
    → drop (off + n) bytes ≡ rest
drop-to_le n v bytes off rest e =
    sym (drop-drop off n bytes)
    ∙ ap (drop n) e
    ∙ ap (λ k. drop k (to_le n v ++ rest)) (sym (length-to_le n v))
    ∙ drop_prefix (to_le n v) rest
