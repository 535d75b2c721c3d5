-- ===== src/Store/History/Valid.antt =====
-- The totals of valid samples are the numbers of the games that have them.
use lol_crawler.Prelude.{
  ℕ, zero, suc, ◌+◌, ◌<◌, ◌≡◌, refl, sym, ap, ◌∙◌, inl, inr, true, false, Bool-cases, ◌&&◌, Option,
  none, some, List, [], ◌∷◌, length, get_or, set, ◌==◌, ==_iff, if◌then◌else◌, arith,
}
use lol_crawler.Prelude.Maps.{String, str_eq, find, insert}
use lol_crawler.Prelude.Maps.Lookup.{str_eq_self, str_eq_sound}
use lol_crawler.Store.{GameKey, game_eq}
use lol_crawler.Store.History.{Tally, slots, raised, is_full}
use lol_crawler.Store.History.Keeps.{KeepsCredit}

abbrev pub weight : String → GameKey → List ℕ → ℕ
weight platform key pr = if str_eq platform key.platform then get_or pr 10 0 else 0

-- The sum of the last slots of a platform's games: 1 for a valid sample, 0 for any other.
unfoldable pub valid_count : String → List (GameKey × List ℕ) → ℕ
valid_count platform [] = 0
valid_count platform ((key, pr) ∷ m) = weight platform key pr + valid_count platform m

abbrev pub old_weight : String → GameKey → Option (List ℕ) → ℕ
old_weight platform key none = 0
old_weight platform key (some pr) = weight platform key pr

game_eq-platform : (a b : GameKey) → game_eq a b ≡ true → str_eq a.platform b.platform ≡ true
game_eq-platform a b h = ground (arith, h)

pub valid_count-insert :
    (platform : String) (key : GameKey) (pr : List ℕ) (m : List (GameKey × List ℕ))
    → valid_count platform (insert game_eq key pr m) + old_weight platform key (find game_eq key m)
      ≡ valid_count platform m + weight platform key pr
unfolding valid_count
valid_count-insert platform key pr [] = omega arith
valid_count-insert platform key pr ((j, old) ∷ m) = elim (Bool-cases (game_eq key j)) [
  | inl t ↦
      let e = str_eq_sound key.platform j.platform (game_eq-platform key j t) in
      let w1 : weight platform j pr ≡ weight platform key pr =
        ap (λ s. if str_eq platform s then get_or pr 10 0 else 0) (sym e) in
      let w2 : weight platform j old ≡ weight platform key old =
        ap (λ s. if str_eq platform s then get_or old 10 0 else 0) (sym e) in
      rw t (omega (arith, w1, w2))
  | inr f ↦ rw f (omega (arith, valid_count-insert platform key pr m))
]

pub get_or-set_self : (xs : List ℕ) (i v : ℕ) → i < length xs → get_or (set xs i v) i 0 ≡ v
get_or-set_self [] i v h = absurd (omega arith)
get_or-set_self (x ∷ xs) zero v h = refl
get_or-set_self (x ∷ xs) (suc i) v h = get_or-set_self xs i v (omega arith)

pub get_or-set_other : (xs : List ℕ) (i j v : ℕ) → i < j → get_or (set xs i v) j 0 ≡ get_or xs j 0
get_or-set_other [] i j v h = refl
get_or-set_other (x ∷ xs) zero (suc j) v h = refl
get_or-set_other (x ∷ xs) (suc i) (suc j) v h = get_or-set_other xs i j v (omega arith)
get_or-set_other (x ∷ xs) i zero v h = absurd (omega arith)

pub length-set : (xs : List ℕ) (i v : ℕ) → length (set xs i v) ≡ length xs
length-set [] i v = refl
length-set (x ∷ xs) zero v = refl
length-set (x ∷ xs) (suc i) v = ap suc (length-set xs i v)

slots-some :
    (o : Option (List ℕ)) (pr : List ℕ) → slots o ≡ some pr → (o ≡ some pr) × (length pr ≡ 11)
slots-some none pr h = cc
slots-some (some old) pr h = elim (Bool-cases (length old == 11)) [
  | inl t ↦
      let e : some old ≡ some pr = rw t at h in
      let e' : old ≡ pr = cc e in (e, ap length (sym e') ∙ (==_iff (length old) 11).0 t)
  | inr f ↦ let no : none ≡ some pr = rw f at h in cc no
]

-- The games that became valid samples since `base` was counted, all of them on `platform`.
pub record IsTallied (platform : String) (base : String → ℕ) (t : Tally) : Type 0 where
  pub here : valid_count platform t.progress ≡ base platform + t.newly_valid
  pub elsewhere : (q : String) → str_eq q platform ≡ false → valid_count q t.progress ≡ base q

pub weight_there :
    (platform : String) (game_id : ℕ) (pr : List ℕ)
    → weight platform (record { platform = platform; game_id = game_id }) pr ≡ get_or pr 10 0
weight_there platform game_id pr = rw (str_eq_self platform) refl

pub credited-IsTallied :
    (platform : String) (base : String → ℕ)
    → KeepsCredit platform (λ n. n < 10) (IsTallied platform base)
credited-IsTallied platform base game_id place pr t q e room h =
    let key : GameKey = record { platform = platform; game_id = game_id } in
    let (was, size) = slots-some (find game_eq key t.progress) pr e in
    let slot : get_or (raised pr place) 10 0 ≡ get_or pr 10 0 =
      get_or-set_other pr place 10 (suc (get_or pr place 0)) q in
    let was_weight : old_weight platform key (find game_eq key t.progress) ≡ get_or pr 10 0 =
      ap (old_weight platform key) was ∙ weight_there platform game_id pr in
    elim (Bool-cases (get_or (raised pr place) 10 0 == 0 && is_full (raised pr place))) [
      | inl y ↦
          let zero_slot : get_or (raised pr place) 10 0 ≡ 0 = ground (arith, y) in
          let one : get_or (set (raised pr place) 10 1) 10 0 ≡ 1 =
            get_or-set_self (raised pr place) 10 1
              (omega (arith, length-set pr place (suc (get_or pr place 0)), size)) in
          let count = valid_count-insert platform key (set (raised pr place) 10 1) t.progress in
          let w = weight_there platform game_id (set (raised pr place) 10 1) in
          rw y (record {
            here = omega (arith, count, w, one, was_weight, slot, zero_slot, h.here);
            elsewhere = λ p off. counted_elsewhere p (set (raised pr place) 10 1) off;
          })
      | inr n ↦
          let count = valid_count-insert platform key (raised pr place) t.progress in
          let w = weight_there platform game_id (raised pr place) in
          rw n (record {
            here = omega (arith, count, w, was_weight, slot, h.here);
            elsewhere = λ p off. counted_elsewhere p (raised pr place) off;
          })
    ]
  where
    counted_elsewhere :
        (p : String) (new : List ℕ)
        → str_eq p platform ≡ false
        → valid_count p
            (insert game_eq (record { platform = platform; game_id = game_id }) new t.progress)
          ≡ base p
    counted_elsewhere p new off =
        let key : GameKey = record { platform = platform; game_id = game_id } in
        let count = valid_count-insert p key new t.progress in
        let w : weight p key new ≡ 0 = rw off refl in
        let w' : old_weight p key (find game_eq key t.progress) ≡ 0 =
          none_elsewhere (find game_eq key t.progress) off in
        omega (arith, count, w, w', h.elsewhere p off)
      where
        none_elsewhere :
            (o : Option (List ℕ))
            → str_eq p platform ≡ false
            → old_weight p (record { platform = platform; game_id = game_id }) o ≡ 0
        none_elsewhere none off = refl
        none_elsewhere (some pr) off = rw off refl
