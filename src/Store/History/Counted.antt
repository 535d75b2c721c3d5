-- ===== src/Store/History/Counted.antt =====
-- The totals of valid samples through `record_game`.
use lol_crawler.Prelude.{
  ℕ, suc, ◌+◌, ◌<◌, ◌≤◌, ◌≡◌, refl, sym, ap, ◌∙◌, inl, inr, Bool, true, false, Bool-cases, Option,
  none, some, List, [], ◌∷◌, length, get_or, set, replicate, ltb, if◌then◌else◌, arith,
}
use lol_crawler.Prelude.Maps.{String, str_eq, find, insert}
use lol_crawler.Prelude.Maps.Lookup.{find_str-insert, str_eq_sound}
use lol_crawler.Store.{GameKey, game_eq, TlKey, tl_eq, tl_before, TlEntry, Store}
use lol_crawler.Store.Cohort.{or_zero}
use lol_crawler.Store.History.{
  Tally, is_full, newly, fill, first_progress, predecessors, tl_insert, enter, plus, add_valid,
  credit_players, record_game,
}
use lol_crawler.Store.History.Keeps.{AllPlaces, credit_players-keeps}
use lol_crawler.Store.History.Valid.{
  weight, weight_there, valid_count, old_weight, valid_count-insert, get_or-set_self,
  get_or-set_other, length-set, IsTallied, credited-IsTallied,
}

pub record IsCounted (s : Store) : Type 0 where
  pub totals : (q : String) → or_zero (find str_eq q s.valid_samples) ≡ valid_count q s.progress
  pub places : AllPlaces (λ n. n < 10) s.tl

pub tl_insert-places :
    (k : TlKey) (v : TlEntry) (tl : List (TlKey × TlEntry))
    → v.place < 10
    → AllPlaces (λ n. n < 10) tl
    → AllPlaces (λ n. n < 10) (tl_insert k v tl)
unfolding tl_insert
tl_insert-places k v [] h a = (h, tt)
tl_insert-places k v ((k', v') ∷ tl) h a = elim (Bool-cases (tl_eq k k')) [
  | inl t ↦ rw t (h, a.1)
  | inr f ↦ rw f (elim (Bool-cases (tl_before k k')) [
    | inl t ↦ rw t (h, a)
    | inr g ↦ rw g (a.0, tl_insert-places k v tl h a.1)
  ])
]

pub enter-places :
    (i game_id : ℕ) (pids : List ℕ) (ts_ms : ℕ) (tl : List (TlKey × TlEntry))
    → i + length pids ≤ 10
    → AllPlaces (λ n. n < 10) tl
    → AllPlaces (λ n. n < 10) (enter i game_id pids ts_ms tl)
unfolding enter
enter-places i game_id [] ts_ms tl h a = a
enter-places i game_id (pid ∷ pids) ts_ms tl h a =
    enter-places (suc i) game_id pids ts_ms _ (omega arith)
      (tl_insert-places _ _ tl (omega arith) a)

pub fill-last :
    (i : ℕ) (pids : List ℕ) (ts_ms : ℕ) (tl : List (TlKey × TlEntry)) (pr : List ℕ)
    → i + length pids ≤ 10
    → (get_or (fill i pids ts_ms tl pr) 10 0 ≡ get_or pr 10 0)
      × (length (fill i pids ts_ms tl pr) ≡ length pr)
unfolding fill
fill-last i [] ts_ms tl pr h = (refl, refl)
fill-last i (pid ∷ pids) ts_ms tl pr h =
    let (a, b) =
      fill-last (suc i) pids ts_ms tl (set pr i (predecessors pid ts_ms tl)) (omega arith) in
    (
      a ∙ get_or-set_other pr i 10 (predecessors pid ts_ms tl) (omega arith),
      b ∙ length-set pr i (predecessors pid ts_ms tl),
    )

pub first_progress-last :
    (pids : List ℕ) (ts_ms : ℕ) (tl : List (TlKey × TlEntry))
    → length pids ≤ 10
    → get_or (first_progress pids ts_ms tl) 10 0
      ≡ newly (is_full (fill 0 pids ts_ms tl (replicate 11 0)))
unfolding first_progress
first_progress-last pids ts_ms tl h =
    let (a, b) = fill-last 0 pids ts_ms tl (replicate 11 0) (omega arith) in
    by_full (fill 0 pids ts_ms tl (replicate 11 0))
      (is_full (fill 0 pids ts_ms tl (replicate 11 0))) a b
  where
    by_full :
        (pr : List ℕ) (b : Bool)
        → get_or pr 10 0 ≡ 0
        → length pr ≡ 11
        → get_or (if b then set pr 10 1 else pr) 10 0 ≡ newly b
    by_full pr true z size = get_or-set_self pr 10 1 (omega (arith, size))
    by_full pr false z size = z

pub add_valid-totals :
    (platform q : String) (n : ℕ) (totals : List (String × ℕ))
    → or_zero (find str_eq q (add_valid platform n totals)) ≡ (
        if str_eq q platform
        then or_zero (find str_eq platform totals) + n
        else or_zero (find str_eq q totals))
add_valid-totals platform q n totals = elim (Bool-cases (ltb 0 n)) [
  | inl t ↦ rw t (
      ap or_zero (find_str-insert q platform (plus (find str_eq platform totals) n) totals)
      ∙ by_test (str_eq q platform) (find str_eq platform totals))
  | inr f ↦ let z : n ≡ 0 = ground (arith, f) in rw f (keep (str_eq q platform) refl z)
]
  where
    by_test :
        (b : Bool) (o : Option ℕ)
        → or_zero (if b then some (plus o n) else find str_eq q totals)
          ≡ (if b then or_zero o + n else or_zero (find str_eq q totals))
    by_test true none = omega arith
    by_test true (some m) = refl
    by_test false o = refl

    keep :
        (b : Bool)
        → str_eq q platform ≡ b
        → n ≡ 0
        → or_zero (find str_eq q totals) ≡ (
            if b then or_zero (find str_eq platform totals) + n else or_zero (find str_eq q totals))
    keep true e z =
        let same = str_eq_sound q platform e in
        omega (arith, z, ap (λ s. or_zero (find str_eq s totals)) same)
    keep false e z = refl

pub record_game-IsCounted :
    (key : GameKey) (pids : List ℕ) (ts_ms : ℕ) (s : Store)
    → length pids ≤ 10
    → find game_eq key s.progress ≡ none
    → IsCounted s
    → IsCounted (record_game key pids ts_ms s)
unfolding record_game
record_game-IsCounted key pids ts_ms s few new h =
    let pr : List ℕ = first_progress pids ts_ms s.tl in
    let n : ℕ = newly (is_full (fill 0 pids ts_ms s.tl (replicate 11 0))) in
    let base : String → ℕ = λ q. valid_count q s.progress in
    let start : Tally = record { progress = insert game_eq key pr s.progress; newly_valid = n } in
    let places = enter-places 0 key.game_id pids ts_ms s.tl (omega (arith, few)) h.places in
    let done =
      credit_players-keeps key.platform (λ n. n < 10) (IsTallied key.platform base)
        (credited-IsTallied key.platform base) ts_ms (enter 0 key.game_id pids ts_ms s.tl) pids
        start places (started pr n (first_progress-last pids ts_ms s.tl few)) in
    let t : Tally =
      credit_players key.platform ts_ms (enter 0 key.game_id pids ts_ms s.tl) pids start in
    record {
      totals = λ q.
          add_valid-totals key.platform q t.newly_valid s.valid_samples
          ∙ meets q t done (str_eq q key.platform) refl;
      places = places;
    }
  where
    meets :
        (q : String) (t : Tally)
        → IsTallied key.platform (λ p. valid_count p s.progress) t
        → (b : Bool) → str_eq q key.platform ≡ b
        → (if b
            then or_zero (find str_eq key.platform s.valid_samples) + t.newly_valid
            else or_zero (find str_eq q s.valid_samples))
          ≡ valid_count q t.progress
    meets q t d true e =
        let same = str_eq_sound q key.platform e in
        omega (arith, h.totals key.platform, d.here, ap (λ p. valid_count p t.progress) same)
    meets q t d false e = h.totals q ∙ sym (d.elsewhere q e)

    started :
        (pr : List ℕ) (n : ℕ)
        → get_or pr 10 0 ≡ n
        → IsTallied key.platform
            (λ p. valid_count p s.progress)
            (record { progress = insert game_eq key pr s.progress; newly_valid = n })
    started pr n last = record {
      here =
          (let count = valid_count-insert key.platform key pr s.progress in
            let w = weight_there key.platform key.game_id pr in
            let old : old_weight key.platform key (find game_eq key s.progress) ≡ 0 =
              ap (old_weight key.platform key) new in
            omega (arith, count, w, old, last));
      elsewhere = λ p off.
          (let count = valid_count-insert p key pr s.progress in
            let w : weight p key pr ≡ 0 = rw off refl in
            let old : old_weight p key (find game_eq key s.progress) ≡ 0 =
              ap (old_weight p key) new in
            omega (arith, count, w, old));
    }
