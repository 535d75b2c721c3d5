-- ===== src/Columnar/Varint/Bounds.antt =====
-- What `read_varint_at` does on any bytes, well formed or not.
use lol_crawler.Prelude.{
  ℕ, zero, suc, ◌+◌, ◌*◌, ◌%◌, ◌^◌, ◌≤◌, ◌<◌, ◌≡◌, [], ◌∷◌, some, inl, inr, arith, get_elem?,
  length, All, bit_and, bit_or, Option-cases,
}
use lol_crawler.Prelude.Bits.{and_0x7f, and_0x80, and_0xfe, bit_or_sum}
use lol_crawler.Prelude.Result.{ok}
use lol_crawler.Prelude.Int.{IsU64}
use lol_crawler.Columnar.Varint.{Bytes, read_loop, read_varint_at}
use native.Mathlib.Nat.{one-le-pow, pow-le-pow_right}
use native.Mathlib.Numerals.{towards_suc}

abbrev pub IsByte : ℕ → Type 0
IsByte b = b < 256

get_elem?_facts :
    (bytes : Bytes) (i b : ℕ)
    → All IsByte bytes
    → get_elem? bytes i ≡ some b
    → (b < 256) × (i < length bytes)
get_elem?_facts [] i b h e = cc
get_elem?_facts (x ∷ xs) zero b h e = ground arith
get_elem?_facts (x ∷ xs) (suc i) b h e =
    let (lt, within) = get_elem?_facts xs i b h.1 e in (lt, omega arith)

pow_steps : (idx : ℕ) → (2 ^ ((idx + 1) * 7) ≡ 128 * 2 ^ (idx * 7)) × (1 ≤ 2 ^ (idx * 7))
pow_steps idx =
    let e : (idx + 1) * 7 ≡ idx * 7 + 7 = omega arith in
    (rw e (simp towards_suc (omega arith)), one-le-pow (idx * 7) 2 (omega arith))

pow_top : (idx : ℕ) → idx ≤ 8 → 2 ^ (idx * 7) ≤ 2 ^ 56
pow_top idx h = pow-le-pow_right (omega arith) {j = 56} (omega arith)

abbrev group : ℕ → ℕ → ℕ
group b p = bit_and b 0x7f * p % 2 ^ 64

group_sum :
    (k out b : ℕ)
    → b < 256
    → out < 2 ^ k
    → b % 128 * 2 ^ k < 2 ^ 64
    → bit_or out (group b (2 ^ k)) ≡ out + b % 128 * 2 ^ k
group_sum k out b hb ho h = ground (arith, and_0x7f b hb, bit_or_sum k out (b % 128) ho)

sum_fits : (out g p : ℕ) → out < p → g < 128 → out + g * p < 128 * p
sum_fits out g p ho hg = grind arith

-- What one byte adds stays within the bits read so far, and within a u64.
next_group :
    (idx out b : ℕ)
    → idx ≤ 8
    → b < 256
    → out < 2 ^ (idx * 7)
    → IsU64 (bit_or out (group b (2 ^ (idx * 7))))
      × (bit_or out (group b (2 ^ (idx * 7))) < 2 ^ ((idx + 1) * 7))
next_group idx out b hi hb ho =
    let p : ℕ = 2 ^ (idx * 7) in
    let small : out + b % 128 * p < 128 * p = sum_fits out (b % 128) p ho (omega arith) in
    let top : p ≤ 2 ^ 56 = pow_top idx hi in
    rw (group_sum (idx * 7) out b hb ho (omega arith))
      (omega arith, omega (arith, (pow_steps idx).0))

last_group : (out b : ℕ) → b < 2 → out < 2 ^ 63 → IsU64 (bit_or out (group b (2 ^ 63)))
last_group out b hb ho = rw (group_sum 63 out b (omega arith) ho (omega arith)) (omega arith)

abbrev Within : ℕ → Bytes → ℕ → ℕ → ℕ → Type 0
Within k bytes pos v pos' = IsU64 v × (pos < pos') × (pos' ≤ pos + k) × (pos' ≤ length bytes)

group-Within :
    (k : ℕ) (bytes : Bytes) (pos idx out b v pos' : ℕ)
    → get_elem? bytes pos ≡ some b
    → (b < 256) × (pos < length bytes)
    → idx ≤ 8
    → out < 2 ^ (idx * 7)
    → read_loop (suc k) bytes pos idx out ≡ ok (v, pos')
    → ((out' : ℕ)
        → out' < 2 ^ ((idx + 1) * 7)
        → read_loop k bytes (pos + 1) (idx + 1) out' ≡ ok (v, pos')
        → Within k bytes (pos + 1) v pos')
    → Within (suc k) bytes pos v pos'
unfolding read_loop
group-Within k bytes pos idx out b v pos' e hb hi ho r rest =
    let out' : ℕ = bit_or out (group b (2 ^ (idx * 7))) in
    ground (arith, e, rest out', next_group idx out b hi hb.0 ho)

last-Within :
    (bytes : Bytes) (pos out b v pos' : ℕ)
    → get_elem? bytes pos ≡ some b
    → (b < 256) × (pos < length bytes)
    → out < 2 ^ 63
    → read_loop 1 bytes pos 9 out ≡ ok (v, pos')
    → Within 1 bytes pos v pos'
unfolding read_loop
last-Within bytes pos out b v pos' e hb ho r =
    ground (arith, e, and_0xfe b hb.0, and_0x80 b hb.0, last_group out b)

read_loop-Within :
    (k : ℕ) (bytes : Bytes) (pos idx out v pos' : ℕ)
    → All IsByte bytes
    → idx + k ≡ 10
    → out < 2 ^ (idx * 7)
    → read_loop k bytes pos idx out ≡ ok (v, pos')
    → Within k bytes pos v pos'
read_loop-Within zero bytes pos idx out v pos' hb hi ho e = unfold read_loop in cc
read_loop-Within (suc zero) bytes pos idx out v pos' hb hi ho e =
    elim (Option-cases (get_elem? bytes pos)) [
      | inl n ↦ unfold read_loop in ground arith
      | inr (b, s) ↦
          let i9 : idx ≡ 9 = omega arith in
          last-Within bytes pos out b v pos' s (get_elem?_facts bytes pos b hb s) (rw i9 at ho)
            (rw i9 at e)
    ]
read_loop-Within (suc (suc k)) bytes pos idx out v pos' hb hi ho e =
    elim (Option-cases (get_elem? bytes pos)) [
      | inl n ↦ unfold read_loop in ground arith
      | inr (b, s) ↦
          group-Within (suc k) bytes pos idx out b v pos' s (get_elem?_facts bytes pos b hb s)
            (omega arith) ho e
            (λ out' ho' e'.
              read_loop-Within (suc k) bytes (pos + 1) (idx + 1) out' v pos' hb (omega arith) ho'
                e')
    ]

-- From a list of bytes, a value that `read_varint_at` returns is a u64; it has read 1 to 10 bytes, all of the input.
pub read_varint_at_bounds :
    (bytes : Bytes) (pos : ℕ) {v pos' : ℕ}
    → All IsByte bytes
    → read_varint_at bytes pos ≡ ok (v, pos')
    → IsU64 v × (pos < pos') × (pos' ≤ pos + 10) × (pos' ≤ length bytes)
unfolding read_varint_at
read_varint_at_bounds bytes pos {v} {pos'} hb e =
    read_loop-Within 10 bytes pos 0 0 v pos' hb (omega arith) (omega arith) e
