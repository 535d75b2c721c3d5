-- ===== src/Columnar/Varint/RoundTrip.antt =====
-- A varint that was written is read back, from any position.
use lol_crawler.Prelude.{
  ℕ, zero, suc, ◌+◌, ◌*◌, ◌/◌, ◌%◌, ◌^◌, ◌≤◌, ◌<◌, ◌≡◌, ◌≢◌, refl, sym, ap, ◌∙◌, [], ◌∷◌, ◌++◌,
  arith, get_elem?-drop, drop, drop-drop, length, length-drop, append_assoc, bit_or, bit_and,
  append-nil,
}
use lol_crawler.Prelude.Bits.{and_0x7f, and_0x80, and_0xfe, or_0x80, bit_or_sum}
use lol_crawler.Prelude.Result.{ok}
use lol_crawler.Prelude.Int.{IsU64}
use lol_crawler.Columnar.Varint.{Bytes, write_loop, write_varint, read_loop, read_varint_at, varint}
use native.Mathlib.Nat.{pow-suc, div-add-mod}
use native.Mathlib.Decide.{dec_lt}
use native.Mathlib.Numerals.{towards_suc}

low_group : (v : ℕ) → bit_and (v % 256) 0x7f ≡ v % 128
low_group v = omega (arith, and_0x7f (v % 256) (omega arith))

inner_group : (v : ℕ) → bit_or (bit_and (v % 256) 0x7f) 0x80 ≡ v % 128 + 128
inner_group v = rw low_group (or_0x80 _ (omega arith))

-- What is written goes behind what stands there.
write_loop-append : (k : ℕ) (out : Bytes) (v : ℕ) → write_loop k out v ≡ out ++ write_loop k [] v
unfolding write_loop
write_loop-append zero out v = sym (append-nil out)
write_loop-append (suc k) out v =
    let b : ℕ = bit_or (bit_and (v % 256) 0x7f) 0x80 in
    ground (
      arith,
      write_loop-append k (out ++ (b ∷ [])) (v / 128),
      write_loop-append k (b ∷ []) (v / 128),
      append_assoc out (b ∷ []) (write_loop k [] (v / 128)),
    )

pub write_varint-varint : (out : Bytes) (v : ℕ) → write_varint out v ≡ out ++ varint v
unfolding write_varint varint
write_varint-varint out v = write_loop-append 10 out v

-- The rounds of the writer, in plain arithmetic.
write_last : (k v : ℕ) → v < 128 → write_loop (suc k) [] v ≡ v ∷ []
unfolding write_loop
write_last k v h = ground (arith, low_group v)

write_more :
    (k v : ℕ) → 128 ≤ v → write_loop (suc k) [] v ≡ (v % 128 + 128) ∷ write_loop k [] (v / 128)
unfolding write_loop
write_more k v h =
    ground (arith, inner_group v, write_loop-append k ((v % 128 + 128) ∷ []) (v / 128))

-- One round of the reader on a last byte, and on a byte with the top bit set.
read_last :
    (k : ℕ) (bytes : Bytes) (pos idx out b : ℕ) (rest : Bytes)
    → drop pos bytes ≡ b ∷ rest
    → b < 128
    → out < 2 ^ (idx * 7)
    → b * 2 ^ (idx * 7) < 2 ^ 64
    → (idx ≡ 9 → b < 2)
    → read_loop (suc k) bytes pos idx out ≡ ok (out + b * 2 ^ (idx * 7), pos + 1)
unfolding read_loop
read_last k bytes pos idx out b rest e hb ho hs h9 =
    rw (get_elem?-drop pos bytes b rest e, read_loop)
      (ground (
        arith,
        and_0x7f b (omega arith),
        and_0x80 b (omega arith),
        and_0xfe b (omega arith),
        bit_or_sum (idx * 7) out b ho,
      ))

read_more :
    (k : ℕ) (bytes : Bytes) (pos idx out g : ℕ) (rest : Bytes)
    → drop pos bytes ≡ (g + 128) ∷ rest
    → g < 128
    → out < 2 ^ (idx * 7)
    → g * 2 ^ (idx * 7) < 2 ^ 64
    → idx < 9
    → read_loop (suc k) bytes pos idx out
      ≡ read_loop k bytes (pos + 1) (idx + 1) (out + g * 2 ^ (idx * 7))
unfolding read_loop
read_more k bytes pos idx out g rest e hg ho hs h9 = ground (
  arith,
  get_elem?-drop pos bytes (g + 128) rest e,
  and_0x7f (g + 128) (omega arith),
  and_0x80 (g + 128) (omega arith),
  bit_or_sum (idx * 7) out g ho,
)

drop_next :
    (pos : ℕ) (bytes : Bytes) (b : ℕ) (rest : Bytes)
    → drop pos bytes ≡ b ∷ rest
    → drop (pos + 1) bytes ≡ rest
drop_next pos bytes b rest e = sym (drop-drop pos 1 bytes) ∙ ap (drop 1) e

drop_within :
    (pos : ℕ) (bytes : Bytes) (b : ℕ) (rest : Bytes)
    → drop pos bytes ≡ b ∷ rest
    → pos + 1 ≤ length bytes
drop_within pos bytes b rest e = omega (arith, length-drop pos bytes, ap length e)

shift_group : (idx : ℕ) → 2 ^ ((idx + 1) * 7) ≡ 128 * 2 ^ (idx * 7)
shift_group idx =
    let e : (idx + 1) * 7 ≡ idx * 7 + 7 = omega arith in rw e (simp towards_suc (omega arith))

split_group : (w p : ℕ) → (w * p ≡ w % 128 * p + w / 128 * (128 * p)) × (w % 128 * p ≤ w * p)
split_group w p =
    let e : w * p ≡ w % 128 * p + w / 128 * (128 * p) =
      omega (arith, ap (λ (t : ℕ). t * p) (div-add-mod w 128)) in
    (e, omega (arith, e))

group_fits : (out g p : ℕ) → out < p → g < 128 → out + g * p < 128 * p
group_fits out g p ho hg = grind arith

abbrev Reads : ℕ → ℕ → ℕ → ℕ → Bytes → ℕ → Bytes → Type 0
Reads k idx out w bytes pos rest =
    (pos' : ℕ) × (read_loop (suc k) bytes pos idx out ≡ ok (out + w * 2 ^ (idx * 7), pos'))
    × (drop pos' bytes ≡ rest)
    × (pos' ≤ length bytes)

-- `w` is what is still to be read, and it counts from bit `idx * 7` on.
read_loop-last :
    (k : ℕ) (bytes : Bytes) (pos idx out w : ℕ) (rest : Bytes)
    → w < 128
    → (idx ≡ 9 → w < 2)
    → out < 2 ^ (idx * 7)
    → w * 2 ^ (idx * 7) < 2 ^ 64
    → drop pos bytes ≡ write_loop (suc k) [] w ++ rest
    → Reads k idx out w bytes pos rest
read_loop-last k bytes pos idx out w rest hw h9 ho hs e =
    let e' : drop pos bytes ≡ w ∷ rest = rw (write_last k w hw) at e in
    (
      pos + 1,
      read_last k bytes pos idx out w rest e' hw ho hs h9,
      drop_next pos bytes w rest e',
      drop_within pos bytes w rest e',
    )

read_loop-write :
    (k : ℕ) (bytes : Bytes) (pos idx out w : ℕ) (rest : Bytes)
    → idx + k ≡ 9
    → w < 2 * 128 ^ k
    → out < 2 ^ (idx * 7)
    → w * 2 ^ (idx * 7) < 2 ^ 64
    → drop pos bytes ≡ write_loop (suc k) [] w ++ rest
    → Reads k idx out w bytes pos rest
read_loop-write zero bytes pos idx out w rest hi hw ho hs e =
    read_loop-last 0 bytes pos idx out w rest (omega arith) (λ _. omega arith) ho hs e
read_loop-write (suc k) bytes pos idx out w rest hi hw ho hs e = elim (dec_lt w 128) [
  | yes h ↦ read_loop-last (suc k) bytes pos idx out w rest h (λ n. omega arith) ho hs e
  | no h ↦
      let p : ℕ = 2 ^ (idx * 7) in
      let e' : drop pos bytes ≡ (w % 128 + 128) ∷ (write_loop (suc k) [] (w / 128) ++ rest) =
        rw (write_more (suc k) w (omega arith)) at e in
      let (pos', r, d, within) =
        read_loop-write k bytes (pos + 1) (idx + 1) (out + w % 128 * p) (w / 128) rest (omega arith)
          (omega (arith, pow-suc 128 k))
          (omega (arith, group_fits out (w % 128) p ho (omega arith), shift_group idx))
          (rw (shift_group idx) (omega (arith, split_group w p))) (drop_next pos bytes _ _ e') in
      (
        pos',
        read_more (suc k) bytes pos idx out (w % 128) _ e' (omega arith) ho
              (omega (arith, split_group w p)) (omega arith)
            ∙ r
            ∙ ap (λ t. ok (t, pos')) (rw (shift_group idx) (omega (arith, split_group w p))),
        d,
        within,
      )
]

-- Whatever follows it, a u64 that was written at a position is read there.
pub read_varint_at-varint :
    (v : ℕ) (bytes : Bytes) (pos : ℕ) (rest : Bytes)
    → IsU64 v
    → drop pos bytes ≡ varint v ++ rest
    → (pos' : ℕ) × (read_varint_at bytes pos ≡ ok (v, pos'))
      × (drop pos' bytes ≡ rest)
      × (pos' ≤ length bytes)
unfolding read_varint_at varint write_varint
read_varint_at-varint v bytes pos rest h e =
    let (pos', r, d, within) =
      read_loop-write 9 bytes pos 0 0 v rest (omega arith) (omega arith) (omega arith) (omega arith)
        e in
    (pos', r ∙ ap (λ t. ok (t, pos')) (omega arith), d, within)

-- A varint is never empty: nothing is read from no bytes.
pub varint-ne-nil : (v : ℕ) (rest : Bytes) → IsU64 v → varint v ++ rest ≢ []
unfolding read_varint_at read_loop
varint-ne-nil v rest h e = cc (read_varint_at-varint v [] 0 rest h (sym e)).1

pub length-varint : (v : ℕ) → IsU64 v → 1 ≤ length (varint v)
length-varint v h = positive (varint v) (λ e. varint-ne-nil v [] h (append-nil (varint v) ∙ e))
  where
    positive : (xs : Bytes) → xs ≢ [] → 1 ≤ length xs
    positive [] n = absurd (n refl)
    positive (x ∷ xs) n = omega arith
