-- ===== src/Columnar/RoundTrip/Payload.antt =====
-- The layout of a payload, and that `encode_payload` writes it.
use lol_crawler.Prelude.{
  ℕ, ◌+◌, ◌≤◌, ◌≡◌, sym, ap, ◌∙◌, List, [], ◌∷◌, ◌++◌, length, arith, append_assoc, append-nil,
  length-append, All,
}
use lol_crawler.Prelude.Int.{IsU64}
use lol_crawler.Prelude.Result.{ok}
use lol_crawler.Columnar.Error.{Error, lengths_overflow}
use lol_crawler.Columnar.Varint.{Bytes, varint, write_varint}
use lol_crawler.Columnar.Varint.RoundTrip.{write_varint-varint, length-varint}
use lol_crawler.Columnar.Stream.{nmisc}
use lol_crawler.Columnar.Cols.{Cols}
use lol_crawler.Columnar.Payload.{
  magic, version, sum_lengths, lengths, write_lengths, write_streams, streams, encode_payload,
}

abbrev pub joined : List Bytes → Bytes
joined [] = []
joined (col ∷ cols) = col ++ joined cols

abbrev pub length_varints : List Bytes → Bytes
length_varints [] = []
length_varints (col ∷ cols) = varint (length col) ++ length_varints cols

-- The payload's layout.
abbrev pub layout : ℕ → Cols → Bytes
layout records cols =
    magic
    ++ (version
        ∷ (varint records
            ++ (varint (length cols.stat)
                ++ (varint (length cols.rune)
                    ++ (length_varints (streams cols) ++ joined (streams cols))))))

pub write_lengths-append :
    (out : Bytes) (cols : List Bytes) → write_lengths out cols ≡ out ++ length_varints cols
unfolding write_lengths
write_lengths-append out [] = sym (append-nil out)
write_lengths-append out (col ∷ cols) =
    write_lengths-append (write_varint out (length col)) cols
    ∙ simp (write_varint-varint, append_assoc)

pub write_streams-append :
    (out : Bytes) (cols : List Bytes) → write_streams out cols ≡ out ++ joined cols
unfolding write_streams
write_streams-append out [] = sym (append-nil out)
write_streams-append out (col ∷ cols) =
    write_streams-append (out ++ col) cols ∙ append_assoc out col _

-- The sum of the lengths does not overflow where the streams fit.
pub sum_lengths-ok :
    (e : Error) (cols : List Bytes) (acc : ℕ)
    → IsU64 (acc + length (joined cols))
    → sum_lengths e acc (lengths cols) ≡ ok (acc + length (joined cols))
unfolding sum_lengths
sum_lengths-ok e [] acc h = ap ok (omega arith)
sum_lengths-ok e (col ∷ cols) acc h =
    let split : length (col ++ joined cols) ≡ length col + length (joined cols) =
      length-append col _ in
    ground (arith, split, sum_lengths-ok e cols (acc + length col))

pub length-length_varints :
    (cols : List Bytes)
    → All (λ col. IsU64 (length col)) cols
    → length cols ≤ length (length_varints cols)
length-length_varints [] h = omega arith
length-length_varints (col ∷ cols) h = omega (
  arith,
  length-append (varint (length col)) (length_varints cols),
  length-varint (length col) h.0,
  length-length_varints cols h.1,
)

pub All-length :
    (cols : List Bytes) → IsU64 (length (joined cols)) → All (λ col. IsU64 (length col)) cols
All-length [] h = tt
All-length (col ∷ cols) h =
    let split : length (col ++ joined cols) ≡ length col + length (joined cols) =
      length-append col _ in
    (omega arith, All-length cols (omega arith))

pub length-streams :
    (cols : Cols)
    → length cols.fixed ≡ nmisc
    → length (streams cols) ≡ nmisc + (length cols.stat + length cols.rune)
length-streams cols h =
    omega
      (arith, length-append cols.fixed (cols.stat ++ cols.rune), length-append cols.stat cols.rune)

-- What a payload that fits a usize bounds.
pub record Bounds (records : ℕ) (cols : Cols) : Type 0 where
  pub each : All (λ col. IsU64 (length col)) (streams cols)
  pub counted : length (streams cols) ≤ length (length_varints (streams cols))
  pub whole :
      length (layout records cols)
      ≡ 5
        + (length (varint records)
            + (length (varint (length cols.stat))
                + (length (varint (length cols.rune))
                    + (length (length_varints (streams cols)) + length (joined (streams cols))))))

pub layout-Bounds :
    (records : ℕ) (cols : Cols) → IsU64 (length (layout records cols)) → Bounds records cols
layout-Bounds records cols fits = record {
  each = each;
  counted = length-length_varints (streams cols) each;
  whole = whole;
}
  where
    tail : Bytes
    tail = length_varints (streams cols) ++ joined (streams cols)

    whole :
        length (layout records cols)
        ≡ 5
          + (length (varint records)
              + (length (varint (length cols.stat))
                  + (length (varint (length cols.rune))
                      + (length (length_varints (streams cols)) + length (joined (streams cols))))))
    whole = omega (
      arith,
      length-append (varint records)
          (varint (length cols.stat) ++ (varint (length cols.rune) ++ tail)),
      length-append (varint (length cols.stat)) (varint (length cols.rune) ++ tail),
      length-append (varint (length cols.rune)) tail,
      length-append (length_varints (streams cols)) (joined (streams cols)),
    )

    each : All (λ col. IsU64 (length col)) (streams cols)
    each = All-length (streams cols) (omega (arith, whole))

-- With all the fixed streams there, a payload that fits a usize is written in its layout.
pub encode_payload-layout :
    (records : ℕ) (cols : Cols)
    → length cols.fixed ≡ nmisc
    → IsU64 (length (layout records cols))
    → encode_payload records cols ≡ ok (layout records cols)
unfolding encode_payload
encode_payload-layout records cols size fits =
    let b = layout-Bounds records cols fits in
    let n = length-streams cols size in
    ground (
      arith,
      n,
      b.counted,
      b.whole,
      sum_lengths-ok lengths_overflow (streams cols) 0 (omega (arith, b.whole)),
      written,
    )
  where
    written :
        write_streams
          (write_lengths
            (write_varint
              (write_varint (write_varint (magic ++ (version ∷ [])) records) (length cols.stat))
              (length cols.rune))
            (streams cols))
          (streams cols)
        ≡ layout records cols
    written = simp (write_streams-append, write_lengths-append, write_varint-varint, append_assoc)
