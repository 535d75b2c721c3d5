-- ===== src/RateLimit/Count.antt =====
-- How many sends lie within a window.
use lol_crawler.Prelude.{
  ℕ, suc, ◌-◌, ◌≤◌, ◌<◌, ◌≡◌, inl, inr, refl, List, [], ◌∷◌, ◌++◌, length, leb, ltb, if◌then◌else◌,
  Bool-cases, arith, All,
}
use lol_crawler.RateLimit.{prune, in_window}

-- The sends, the oldest first, up to the present.
abbrev pub Ordered : ℕ → List ℕ → Type 0
Ordered now [] = Unit {0}
Ordered now (t ∷ ts) = (t ≤ now) × All (λ u. t ≤ u) ts × Ordered now ts

-- The sends of the last `win` milliseconds.
abbrev pub count_within : ℕ → ℕ → List ℕ → ℕ
count_within win now [] = 0
count_within win now (t ∷ ts) =
    let rest = count_within win now ts in if ltb (now - t) win then suc rest else rest

-- Of sends in order, those at the rear are those within the window.
pub count_within-length :
    (win now t : ℕ) (ts : List ℕ)
    → now - t < win
    → All (λ u. t ≤ u) ts
    → count_within win now ts ≡ length ts
count_within-length win now t [] h k = refl
count_within-length win now t (u ∷ ts) h k =
    ground (arith, k.0, count_within-length win now t ts h k.1)

pub in_window-count_within :
    (win now : ℕ) (sent : List ℕ)
    → Ordered now sent
    → in_window win now sent ≡ count_within win now sent
unfolding in_window
in_window-count_within win now [] h = refl
in_window-count_within win now (t ∷ ts) h =
    let newer : in_window win now ts ≡ count_within win now ts =
      in_window-count_within win now ts h.2 in
    elim (Bool-cases (ltb (now - t) win)) [
      | inl e ↦
          let all = count_within-length win now t ts (ground arith) h.1 in
          rw (newer, all) (ground (arith, e))
      | inr f ↦ ground (arith, newer, f)
    ]

pub count_within-prune :
    (win window now : ℕ) (sent : List ℕ)
    → win ≤ window
    → count_within win now (prune window now sent) ≡ count_within win now sent
unfolding prune
count_within-prune win window now [] h = refl
count_within-prune win window now (t ∷ ts) h =
    ground (arith, count_within-prune win window now ts h)

pub Ordered-prune :
    (window now : ℕ) (sent : List ℕ) → Ordered now sent → Ordered now (prune window now sent)
unfolding prune
Ordered-prune window now [] h = tt
Ordered-prune window now (t ∷ ts) h = elim (Bool-cases (leb window (now - t))) [
  | inl e ↦ rw e (Ordered-prune window now ts h.2)
  | inr f ↦ rw f h
]

pub count_within-append :
    (win now : ℕ) (sent : List ℕ)
    → count_within win now (sent ++ (now ∷ [])) ≤ suc (count_within win now sent)
count_within-append win now [] = ground arith
count_within-append win now (t ∷ ts) = ground (arith, count_within-append win now ts)
