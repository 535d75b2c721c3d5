-- ===== src/Prelude/Maps.antt =====
-- `HashMap` and `BTreeMap` of the sources: a list of entries, searched with the test on keys.
pub mod Laws
pub mod Lookup
use lol_crawler.Prelude.Tests.{ltb, leb, ◌==◌, ==_iff, ==_self, if◌then◌else◌, Bool-cases}
use lol_crawler.Prelude.Lists.{All, All-append}
use Prim.Native.Nat.{ℕ}
use mathlib.Core.Path.{◌≡◌, refl, sym, ap, ◌∙◌}
use mathlib.Core.Logic.{◌⊎◌, inl, inr}
use mathlib.Core.Bool.{Bool, true, false, ◌&&◌}
use mathlib.Core.Option.{Option, none, some}
use mathlib.Core.List.{List, [], ◌∷◌, ◌++◌}
use native.Mathlib.Omega.{arith}

-- A String is its UTF-8 bytes.
abbrev pub String : Type 0
String = List ℕ

abbrev pub str_eq : String → String → Bool
str_eq [] [] = true
str_eq (a ∷ as') (b ∷ bs) = a == b && str_eq as' bs
str_eq _ _ = false

module _ {K V : Type 0} (eq : K → K → Bool) where
  abbrev pub find : K → List (K × V) → Option V
  find k [] = none
  find k ((k', v) ∷ m) = if eq k k' then some v else find k m

  -- `get_mut` and a write through it.
  abbrev pub adjust : K → (V → V) → List (K × V) → List (K × V)
  adjust k f [] = []
  adjust k f ((k', v) ∷ m) = if eq k k' then (k', f v) ∷ m else (k', v) ∷ adjust k f m

  abbrev pub insert : K → V → List (K × V) → List (K × V)
  insert k v [] = (k, v) ∷ []
  insert k v ((k', v') ∷ m) = if eq k k' then (k', v) ∷ m else (k', v') ∷ insert k v m

  abbrev pub remove : K → List (K × V) → List (K × V)
  remove k [] = []
  remove k ((k', v) ∷ m) = if eq k k' then remove k m else (k', v) ∷ remove k m

abbrev pub keys : {K V : Type 0} → List (K × V) → List K
keys [] = []
keys ((k, v) ∷ m) = k ∷ keys m

abbrev pub keep_if : {A : Type 0} → (A → Bool) → List A → List A
keep_if p [] = []
keep_if p (x ∷ xs) = let rest = keep_if p xs in if p x then x ∷ rest else rest
