-- ===== src/Store/Players.antt =====
-- `assign_player_ids` of crates/server/src/storage.rs: each puuid has one id, and no two share one.
use lol_crawler.Prelude.{
  ℕ, ◌+◌, ◌%◌, ◌^◌, ◌<◌, ◌≤◌, ◌≡◌, ◌⊎◌, refl, sym, ap, ◌∙◌, inl, inr, Bool, true, false, Option,
  none, some, List, [], ◌∷◌, length, if◌then◌else◌, arith,
}
use lol_crawler.Prelude.Maps.{String, str_eq, find, insert}
use lol_crawler.Prelude.Maps.Lookup.{find_str-insert, str_eq_self, str_eq_sound}
use lol_crawler.Store.{Store}

abbrev pub with_id : String → Option ℕ → Store → ℕ × Store
with_id p (some id) s = (id, s)
with_id p none s = (
  s.next_player_id,
  record s {
    next_player_id = (s.next_player_id + 1) % 2 ^ 32;
    players = insert str_eq p s.next_player_id s.players;
  },
)

-- The id of one puuid, a new one where it has none.
abbrev pub player_id_of : String → Store → ℕ × Store
player_id_of p s = with_id p (find str_eq p s.players) s

unfoldable pub assign_player_ids : List String → Store → List ℕ × Store
assign_player_ids [] s = ([], s)
assign_player_ids (p ∷ ps) s =
    let (id, s1) = player_id_of p s in let (ids, s2) = assign_player_ids ps s1 in (id ∷ ids, s2)

-- Ids are below the next one, and a puuid is told by its id.
pub record IsNumbered (s : Store) : Type 0 where
  pub below : (p : String) (id : ℕ) → find str_eq p s.players ≡ some id → id < s.next_player_id
  pub told :
      (p q : String) (id : ℕ)
      → find str_eq p s.players ≡ some id
      → find str_eq q s.players ≡ some id
      → p ≡ q

pub record Assigned (s s' : Store) : Type 0 where
  pub numbered : IsNumbered s'
  pub keeps :
      (q : String) (id : ℕ) → find str_eq q s.players ≡ some id → find str_eq q s'.players ≡ some id
  pub at_most : s.next_player_id ≤ s'.next_player_id

if_some :
    (b : Bool) (v id : ℕ) (o : Option ℕ)
    → (if b then some v else o) ≡ some id
    → ((b ≡ true) × (v ≡ id)) ⊎ ((b ≡ false) × (o ≡ some id))
if_some true v id o h = inl (refl, cc)
if_some false v id o h = inr (refl, h)

module _ (p : String) (s : Store) (h : IsNumbered s) (new : find str_eq p s.players ≡ none)
    (room : s.next_player_id + 1 < 2 ^ 32) where
  lookup :
      (q : String)
      → find str_eq q (with_id p none s).1.players
        ≡ (if str_eq q p then some s.next_player_id else find str_eq q s.players)
  lookup q = find_str-insert q p s.next_player_id s.players

  next : (s.next_player_id + 1) % 2 ^ 32 ≡ s.next_player_id + 1
  next = omega arith

  new-Assigned : Assigned s (with_id p none s).1
  new-Assigned = record {
    numbered = record {
      below = λ q id e.
          elim (if_some (str_eq q p) s.next_player_id id (find str_eq q s.players)
            (sym (lookup q) ∙ e)) [
              | inl (t, v) ↦ omega (arith, next, v)
              | inr (f, o) ↦ omega (arith, next, h.below q id o)
            ];
      told = λ q r id e1 e2.
          both q r id
            (if_some (str_eq q p) s.next_player_id id (find str_eq q s.players)
              (sym (lookup q) ∙ e1))
            (if_some (str_eq r p) s.next_player_id id (find str_eq r s.players)
              (sym (lookup r) ∙ e2));
    };
    keeps = λ q id e. lookup q ∙ other q id (str_eq q p) refl e;
    at_most = omega (arith, next);
  }
    where
      both :
          (q r : String) (id : ℕ)
          → ((str_eq q p ≡ true) × (s.next_player_id ≡ id))
            ⊎ ((str_eq q p ≡ false) × (find str_eq q s.players ≡ some id))
          → ((str_eq r p ≡ true) × (s.next_player_id ≡ id))
            ⊎ ((str_eq r p ≡ false) × (find str_eq r s.players ≡ some id))
          → q ≡ r
      both q r id (inl (t, v)) (inl (t', v')) = str_eq_sound q p t ∙ sym (str_eq_sound r p t')
      both q r id (inl (t, v)) (inr (f, o)) = absurd (omega (arith, v, h.below r id o))
      both q r id (inr (f, o)) (inl (t, v)) = absurd (omega (arith, v, h.below q id o))
      both q r id (inr (f, o)) (inr (f', o')) = h.told q r id o o'

      other :
          (q : String) (id : ℕ) (b : Bool)
          → str_eq q p ≡ b
          → find str_eq q s.players ≡ some id
          → (if b then some s.next_player_id else find str_eq q s.players) ≡ some id
      other q id true t e =
          let same = str_eq_sound q p t in
          let no : find str_eq q s.players ≡ none = ap (λ x. find str_eq x s.players) same ∙ new in
          cc (no, e)
      other q id false f e = e

pub player_id_of-Assigned :
    (p : String) (s : Store)
    → IsNumbered s
    → s.next_player_id + 1 < 2 ^ 32
    → Assigned s (player_id_of p s).1
      × (find str_eq p (player_id_of p s).1.players ≡ some (player_id_of p s).0)
      × ((player_id_of p s).1.next_player_id ≤ s.next_player_id + 1)
player_id_of-Assigned p s h room = by_found (find str_eq p s.players) refl
  where
    by_found :
        (o : Option ℕ)
        → find str_eq p s.players ≡ o
        → Assigned s (with_id p o s).1
          × (find str_eq p (with_id p o s).1.players ≡ some (with_id p o s).0)
          × ((with_id p o s).1.next_player_id ≤ s.next_player_id + 1)
    by_found (some id) e =
        (record { numbered = h; keeps = λ q i x. x; at_most = omega arith }, e, omega arith)
    by_found none e = (
      new-Assigned p s h e room,
      lookup p s h e room p ∙ rw (str_eq_self p) refl,
      omega (arith, next p s h e room),
    )

-- Each puuid has its id in the list's place.
abbrev pub AllAssigned : List String → List ℕ → Store → Type 0
AllAssigned [] [] s = Unit {0}
AllAssigned (p ∷ ps) (id ∷ ids) s = (find str_eq p s.players ≡ some id) × AllAssigned ps ids s
AllAssigned _ _ s = ⊥

-- From ids that tell puuids apart and leave room for the new ones, every puuid of a list is given
-- the id that the table holds for it afterwards, no id that was there changes, and ids still tell
-- puuids apart.
pub assign_player_ids-AllAssigned :
    (ps : List String) (s : Store)
    → IsNumbered s
    → s.next_player_id + length ps < 2 ^ 32
    → AllAssigned ps (assign_player_ids ps s).0 (assign_player_ids ps s).1
      × Assigned s (assign_player_ids ps s).1
unfolding assign_player_ids
assign_player_ids-AllAssigned [] s h room =
    (tt, record { numbered = h; keeps = λ q i x. x; at_most = omega arith })
assign_player_ids-AllAssigned (p ∷ ps) s h room =
    let (a, found, more) = player_id_of-Assigned p s h (omega arith) in
    let (rest, b) =
      assign_player_ids-AllAssigned ps (player_id_of p s).1 a.numbered (omega (arith, more)) in
    (
      (b.keeps p (player_id_of p s).0 found, rest),
      record {
        numbered = b.numbered;
        keeps = λ q id e. b.keeps q id (a.keeps q id e);
        at_most = omega (arith, a.at_most, b.at_most);
      },
    )
