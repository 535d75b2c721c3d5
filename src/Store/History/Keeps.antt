-- ===== src/Store/History/Keeps.antt =====
-- What each credit of a game keeps, the loops of `store_match` keep.
use lol_crawler.Prelude.{
  ℕ, ◌≡◌, refl, subst, false, Bool-cases, ◌&&◌, Option, none, some, Option-cases, inl, inr, List,
  [], ◌∷◌, leb, ltb, ◌==◌, get_or, All,
}
use lol_crawler.Prelude.Maps.{String, find}
use lol_crawler.Store.{GameKey, game_eq, TlKey, TlEntry}
use lol_crawler.Store.History.{
  Tally, history_required, slots, raised, credited, credit_step, later, credit, credit_players,
}

-- Entries whose places are as `Q` asks.
abbrev pub AllPlaces : (ℕ → Type 0) → List (TlKey × TlEntry) → Type 0
AllPlaces Q [] = Unit {0}
AllPlaces Q ((k, v) ∷ tl) = Q v.place × AllPlaces Q tl

pub AllPlaces-any : (tl : List (TlKey × TlEntry)) → AllPlaces (λ n. Unit {0}) tl
AllPlaces-any [] = tt
AllPlaces-any ((k, v) ∷ tl) = (tt, AllPlaces-any tl)

later-All :
    (Q : ℕ → Type 0) (pid ts_ms : ℕ) (tl : List (TlKey × TlEntry))
    → AllPlaces Q tl
    → All (λ (e : TlEntry). Q e.place) (later pid ts_ms tl)
unfolding later
later-All Q pid ts_ms [] h = tt
later-All Q pid ts_ms ((k, v) ∷ tl) h =
    elim (Bool-cases (pid == k.player_id && ltb ts_ms k.ts_ms)) [
      | inl t ↦ rw t (h.0, later-All Q pid ts_ms tl h.1)
      | inr f ↦ rw f (later-All Q pid ts_ms tl h.1)
    ]

module _ (platform : String) (Q : ℕ → Type 0) (P : Tally → Type 0) where
  -- A credit of one game, where its slot is not full.
  abbrev pub KeepsCredit : Type 0
  KeepsCredit =
      (game_id place : ℕ) (pr : List ℕ) (t : Tally)
      → Q place
      → slots (find game_eq (record { platform = platform; game_id = game_id }) t.progress)
        ≡ some pr
      → leb history_required (get_or pr place 0) ≡ false
      → P t
      → P (credited (record { platform = platform; game_id = game_id }) (raised pr place) t)

  module _ (keeps : KeepsCredit) where
    credit_step-keeps :
        (game_id place : ℕ) (o : Option (List ℕ)) (t t' : Tally)
        → Q place
        → slots (find game_eq (record { platform = platform; game_id = game_id }) t.progress) ≡ o
        → credit_step (record { platform = platform; game_id = game_id }) place o t ≡ some t'
        → P t
        → P t'
    credit_step-keeps game_id place none t t' q e s h = let same : t ≡ t' = cc s in subst P same h
    credit_step-keeps game_id place (some pr) t t' q e s h =
        elim (Bool-cases (leb history_required (get_or pr place 0))) [
          | inl full ↦ let no : none ≡ some t' = rw full at s in cc no
          | inr room ↦
              let step : some (
                    credited (record { platform = platform; game_id = game_id }) (raised pr place)
                      t)
                  ≡ some t' =
                rw room at s in
              let same : credited (record { platform = platform; game_id = game_id })
                    (raised pr place) t
                  ≡ t' =
                cc step in
              subst P same (keeps game_id place pr t q e room h)
        ]

    credit-keeps :
        (es : List TlEntry) (t : Tally)
        → All (λ (e : TlEntry). Q e.place) es
        → P t
        → P (credit platform es t)
    unfolding credit
    credit-keeps [] t q h = h
    credit-keeps (e ∷ es) t q h =
        let key : GameKey = record { platform = platform; game_id = e.game_id } in
        let o : Option (List ℕ) = slots (find game_eq key t.progress) in
        elim (Option-cases (credit_step key e.place o t)) [
          | inl stop ↦ rw (stop, credit) h
          | inr (t', on) ↦
              rw (on, credit)
                (credit-keeps es t' q.1 (credit_step-keeps e.game_id e.place o t t' q.0 refl on h))
        ]

    pub credit_players-keeps :
        (ts_ms : ℕ) (tl : List (TlKey × TlEntry)) (pids : List ℕ) (t : Tally)
        → AllPlaces Q tl
        → P t
        → P (credit_players platform ts_ms tl pids t)
    unfolding credit_players
    credit_players-keeps ts_ms tl [] t q h = h
    credit_players-keeps ts_ms tl (pid ∷ pids) t q h =
        credit_players-keeps ts_ms tl pids (credit platform (later pid ts_ms tl) t) q
          (credit-keeps (later pid ts_ms tl) t (later-All Q pid ts_ms tl q) h)
