-- ===== src/Prelude/Maps/Laws.antt =====
-- Maps with numbers for keys.
use lol_crawler.Prelude.Tests.{◌==◌, Bool-cases}
use lol_crawler.Prelude.Lists.{All}
use lol_crawler.Prelude.Maps.{find, adjust, insert, remove}
use Prim.Native.Nat.{ℕ}
use mathlib.Core.Path.{◌≡◌, refl, sym, ap, subst}
use mathlib.Core.Logic.{◌≢◌, inl, inr}
use mathlib.Core.Bool.{true}
use mathlib.Core.Option.{none, some}
use mathlib.Core.List.{List, [], ◌∷◌}
use native.Mathlib.Omega.{arith}

module _ {V : Type 0} where
  -- No key stands twice.
  abbrev pub Distinct : List (ℕ × V) → Type 0
  Distinct [] = Unit {0}
  Distinct ((k, v) ∷ m) = (find ◌==◌ k m ≡ none) × Distinct m

  pub find-remove_self : (k : ℕ) (m : List (ℕ × V)) → find ◌==◌ k (remove ◌==◌ k m) ≡ none
  find-remove_self k [] = refl
  find-remove_self k ((k', v) ∷ m) = ground (arith, find-remove_self k m)

  pub find-remove-none :
      (j k : ℕ) (m : List (ℕ × V)) → find ◌==◌ j m ≡ none → find ◌==◌ j (remove ◌==◌ k m) ≡ none
  find-remove-none j k [] h = refl
  find-remove-none j k ((k', v) ∷ m) h = ground (arith, find-remove-none j k m)

  pub find-adjust-none :
      (j k : ℕ) (f : V → V) (m : List (ℕ × V))
      → find ◌==◌ j m ≡ none
      → find ◌==◌ j (adjust ◌==◌ k f m) ≡ none
  find-adjust-none j k f [] h = refl
  find-adjust-none j k f ((k', v) ∷ m) h = ground (arith, find-adjust-none j k f m)

  pub find-insert-none :
      (j k : ℕ) (v : V) (m : List (ℕ × V))
      → j ≢ k
      → find ◌==◌ j m ≡ none
      → find ◌==◌ j (insert ◌==◌ k v m) ≡ none
  find-insert-none j k v [] off h = ground arith
  find-insert-none j k v ((k', v') ∷ m) off h = ground (arith, find-insert-none j k v m)

  pub Distinct-remove : (k : ℕ) (m : List (ℕ × V)) → Distinct m → Distinct (remove ◌==◌ k m)
  Distinct-remove k [] h = tt
  Distinct-remove k ((k', v) ∷ m) h = elim (Bool-cases (k == k')) [
    | inl t ↦ rw t (Distinct-remove k m h.1)
    | inr f ↦ rw f (find-remove-none k' k m h.0, Distinct-remove k m h.1)
  ]

  pub Distinct-adjust :
      (k : ℕ) (f : V → V) (m : List (ℕ × V)) → Distinct m → Distinct (adjust ◌==◌ k f m)
  Distinct-adjust k f [] h = tt
  Distinct-adjust k f ((k', v) ∷ m) h = elim (Bool-cases (k == k')) [
    | inl t ↦ rw t h
    | inr g ↦ rw g (find-adjust-none k' k f m h.0, Distinct-adjust k f m h.1)
  ]

  pub Distinct-insert :
      (k : ℕ) (v : V) (m : List (ℕ × V)) → Distinct m → Distinct (insert ◌==◌ k v m)
  Distinct-insert k v [] h = (refl, tt)
  Distinct-insert k v ((k', v') ∷ m) h = elim (Bool-cases (k == k')) [
    | inl t ↦ rw t h
    | inr g ↦ rw g (
      find-insert-none k' k v m (λ e. let e' : (k == k') ≡ true = ground arith in cc (e', g)) h.0,
      Distinct-insert k v m h.1,
    )
  ]

  module _ (P : ℕ × V → Type 0) where
    pub All-find : (k : ℕ) (m : List (ℕ × V)) {v : V} → All P m → find ◌==◌ k m ≡ some v → P (k, v)
    All-find k [] h e = cc
    All-find k ((k', v') ∷ m) {v} h e = elim (Bool-cases (k == k')) [
      | inl t ↦
          let same : k' ≡ k = ground arith in
          let found : some v' ≡ some v = rw t at e in
          let val : v' ≡ v = ground arith in subst P (cc (same, val)) h.0
      | inr g ↦ let e' : find ◌==◌ k m ≡ some v = rw g at e in All-find k m h.1 e'
    ]

    pub All-remove : (k : ℕ) (m : List (ℕ × V)) → All P m → All P (remove ◌==◌ k m)
    All-remove k [] h = tt
    All-remove k ((k', v') ∷ m) h = elim (Bool-cases (k == k')) [
      | inl t ↦ rw t (All-remove k m h.1)
      | inr g ↦ rw g (h.0, All-remove k m h.1)
    ]

    pub All-adjust :
        (k : ℕ) (f : V → V) (m : List (ℕ × V))
        → ((v : V) → find ◌==◌ k m ≡ some v → P (k, v) → P (k, f v))
        → All P m
        → All P (adjust ◌==◌ k f m)
    All-adjust k f [] keeps h = tt
    All-adjust k f ((k', v') ∷ m) keeps h = elim (Bool-cases (k == k')) [
      | inl t ↦
          let same : k ≡ k' = ground arith in
          rw t (
            subst (λ i. P (i, f v')) same
                (keeps v' (rw t refl) (subst (λ i. P (i, v')) (sym same) h.0)),
            h.1,
          )
      | inr g ↦ rw g (h.0, All-adjust k f m (λ v e p. keeps v (rw g e) p) h.1)
    ]

    pub All-insert :
        (k : ℕ) (v : V) (m : List (ℕ × V)) → P (k, v) → All P m → All P (insert ◌==◌ k v m)
    All-insert k v [] p h = (p, tt)
    All-insert k v ((k', v') ∷ m) p h = elim (Bool-cases (k == k')) [
      | inl t ↦ let same : k ≡ k' = ground arith in rw t (subst (λ i. P (i, v)) same p, h.1)
      | inr g ↦ rw g (h.0, All-insert k v m p h.1)
    ]

module _ {V : Type 0} where
  pub find-adjust_self :
      (k : ℕ) (f : V → V) (m : List (ℕ × V)) {v : V}
      → find ◌==◌ k m ≡ some v
      → find ◌==◌ k (adjust ◌==◌ k f m) ≡ some (f v)
  find-adjust_self k f [] e = cc
  find-adjust_self k f ((k', v') ∷ m) {v} e = elim (Bool-cases (k == k')) [
    | inl t ↦
        let found : some v' ≡ some v = rw t at e in
        let val : v' ≡ v = ground arith in rw t (rw t (ap (λ x. some (f x)) val))
    | inr g ↦ let e' : find ◌==◌ k m ≡ some v = rw g at e in rw g (rw g (find-adjust_self k f m e'))
  ]

  pub remove-adjust :
      (k : ℕ) (f : V → V) (m : List (ℕ × V)) → remove ◌==◌ k (adjust ◌==◌ k f m) ≡ remove ◌==◌ k m
  remove-adjust k f [] = refl
  remove-adjust k f ((k', v) ∷ m) = elim (Bool-cases (k == k')) [
    | inl t ↦ rw t (rw t refl)
    | inr g ↦ rw g (rw g (ap (λ t. (k', v) ∷ t) (remove-adjust k f m)))
  ]
