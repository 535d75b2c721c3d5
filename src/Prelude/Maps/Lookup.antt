-- ===== src/Prelude/Maps/Lookup.antt =====
-- What `find` sees of a map that was written to, its keys numbers or strings.
use lol_crawler.Prelude.Tests.{◌==◌, ==_self, if◌then◌else◌, Bool-cases}
use lol_crawler.Prelude.Maps.{String, str_eq, find, insert, remove}
use Prim.Native.Nat.{ℕ}
use mathlib.Core.Path.{◌≡◌, refl, sym, ap, subst, ◌∙◌}
use mathlib.Core.Logic.{inl, inr}
use mathlib.Core.Bool.{Bool, true, false}
use mathlib.Core.Option.{none, some}
use mathlib.Core.List.{List, [], ◌∷◌}
use native.Mathlib.Omega.{arith}

module _ {V : Type 0} where
  pub find-insert :
      (q p : ℕ) (v : V) (m : List (ℕ × V))
      → find ◌==◌ q (insert ◌==◌ p v m) ≡ (if q == p then some v else find ◌==◌ q m)
  find-insert q p v [] = ground arith
  find-insert q p v ((k, w) ∷ m) = ground (arith, find-insert q p v m)

  pub find-remove :
      (q p : ℕ) (m : List (ℕ × V))
      → find ◌==◌ q (remove ◌==◌ p m) ≡ (if q == p then none else find ◌==◌ q m)
  find-remove q p [] = ground arith
  find-remove q p ((k, w) ∷ m) = ground (arith, find-remove q p m)

pub str_eq_self : (s : String) → str_eq s s ≡ true
str_eq_self [] = refl
str_eq_self (c ∷ s) = rw (==_self c, str_eq_self s) refl

pub str_eq_sound : (s t : String) → str_eq s t ≡ true → s ≡ t
str_eq_sound [] [] h = refl
str_eq_sound (c ∷ s) (d ∷ t) h =
    let e : c ≡ d = ground arith in let es : s ≡ t = str_eq_sound s t (ground arith) in cc (e, es)
str_eq_sound [] (d ∷ t) h = cc
str_eq_sound (c ∷ s) [] h = cc

pub find_str-insert :
    {V : Type 0} (q p : String) (v : V) (m : List (String × V))
    → find str_eq q (insert str_eq p v m) ≡ (if str_eq q p then some v else find str_eq q m)
find_str-insert q p v [] = refl
find_str-insert q p v ((k, w) ∷ m) = elim (Bool-cases (str_eq p k)) [
  | inl same ↦
      let e = str_eq_sound p k same in
      rw same (
        subst
          (λ t.
            (if str_eq q t then some v else find str_eq q m)
            ≡ (if str_eq q p then some v else if str_eq q t then some w else find str_eq q m))
          e (collapse (str_eq q p) (some v) (some w) (find str_eq q m)))
  | inr differ ↦ rw differ (
      ap (λ t. if str_eq q k then some w else t) (find_str-insert q p v m)
      ∙ swap (str_eq q k) (str_eq q p) (λ a b. apart a b differ) (some w) (some v)
          (find str_eq q m))
]
  where
    collapse :
        {A : Type 0} (b : Bool) (x y z : A)
        → (if b then x else z) ≡ (if b then x else if b then y else z)
    collapse true x y z = refl
    collapse false x y z = refl

    apart : str_eq q k ≡ true → str_eq q p ≡ true → str_eq p k ≡ false → ⊥
    apart a b d =
        let e = str_eq_sound q k a in
        let e' = str_eq_sound q p b in
        let t : str_eq p k ≡ true = ap (λ x. str_eq x k) (sym e' ∙ e) ∙ str_eq_self k in cc (t, d)

    swap :
        {A : Type 0} (a b : Bool)
        → (a ≡ true → b ≡ true → ⊥)
        → (x y z : A)
        → (if a then x else if b then y else z) ≡ (if b then y else if a then x else z)
    swap true true h x y z = absurd (h refl refl)
    swap true false h x y z = refl
    swap false true h x y z = refl
    swap false false h x y z = refl
