-- ===== src/Frontier/Agrees.antt =====
-- The two tables of the queue agree: a player has one row at most, and the index holds its key.
use lol_crawler.Prelude.{
  ℕ, ◌≡◌, ◌≢◌, refl, sym, ap, ◌∙◌, inl, inr, Bool, true, false, Bool-cases, Option, none, some, [],
  ◌∷◌, leb, ◌==◌, ==_iff, ==_self, if◌then◌else◌, arith,
}
use lol_crawler.Prelude.Maps.{String, find, insert, remove}
use lol_crawler.Prelude.Maps.Lookup.{find-insert, find-remove, str_eq_self}
use lol_crawler.Frontier.{
  FrontierTask, FrontierKey, Slot, Rows, slot_eq, Frontier, slot, enqueue, push_over, frontier_push,
  take_row,
}

abbrev pub slot_of : ℕ → Rows → Option Slot
slot_of player_id [] = none
slot_of player_id ((k, task) ∷ rows) =
    if player_id == k.player_id then some k else slot_of player_id rows

abbrev pub Once : Rows → Type 0
Once [] = Unit {0}
Once ((k, task) ∷ rows) = (slot_of k.player_id rows ≡ none) × Once rows

abbrev pub key_of : Option Slot → Option FrontierKey
key_of none = none
key_of (some k) = some (record { platform = k.platform; bucket = k.bucket; due_ms = k.due_ms })

pub record IsFrontier (s : Frontier) : Type 0 where
  pub once : Once s.f
  pub agrees : (player_id : ℕ) → find ◌==◌ player_id s.idx ≡ key_of (slot_of player_id s.f)

slot_eq_self : (k : Slot) → slot_eq k k ≡ true
slot_eq_self k =
    rw (str_eq_self k.platform, ==_self k.bucket, ==_self k.due_ms, ==_self k.player_id) refl

pub slot_eq-player : (a b : Slot) → slot_eq a b ≡ true → b.player_id ≡ a.player_id
slot_eq-player a b h = ground (arith, h)

self_slot : (p q : ℕ) (k : Slot) → (if p == q then some k else none) ≡ none → p ≢ q
self_slot p q k h e = ground (arith, e, h)

-- A row of a player who has none.
pub slot_of-insert :
    (q : ℕ) (k : Slot) (task : FrontierTask) (rows : Rows)
    → slot_of k.player_id rows ≡ none
    → slot_of q (insert slot_eq k task rows) ≡ (if q == k.player_id then some k else slot_of q rows)
slot_of-insert q k task [] h = refl
slot_of-insert q k task ((j, t) ∷ rows) h = elim (Bool-cases (slot_eq k j)) [
  | inl same ↦ let e = slot_eq-player k j same in ground (arith, e, h)
  | inr other ↦ rw other (ground (arith, h, slot_of-insert q k task rows))
]

Once-insert :
    (k : Slot) (task : FrontierTask) (rows : Rows)
    → slot_of k.player_id rows ≡ none
    → Once rows
    → Once (insert slot_eq k task rows)
Once-insert k task [] h o = (refl, tt)
Once-insert k task ((j, t) ∷ rows) h o = elim (Bool-cases (slot_eq k j)) [
  | inl same ↦ let e = slot_eq-player k j same in ground (arith, e, h)
  | inr other ↦ rw other (
    slot_of-insert j.player_id k task rows (ground (arith, h)) ∙ ground (arith, h, o.0),
    Once-insert k task rows (ground (arith, h)) o.1,
  )
]

remove-absent :
    (k : Slot) (rows : Rows) → slot_of k.player_id rows ≡ none → remove slot_eq k rows ≡ rows
remove-absent k [] h = refl
remove-absent k ((j, t) ∷ rows) h = elim (Bool-cases (slot_eq k j)) [
  | inl same ↦ let e = slot_eq-player k j same in ground (arith, e, h)
  | inr other ↦ rw other (ap (λ r. (j, t) ∷ r) (remove-absent k rows (ground (arith, h))))
]

-- The row that a player has is taken away.
slot_of-remove :
    (q : ℕ) (k : Slot) (rows : Rows)
    → Once rows
    → slot_of k.player_id rows ≡ some k
    → slot_of q (remove slot_eq k rows) ≡ (if q == k.player_id then none else slot_of q rows)
slot_of-remove q k [] o h = cc
slot_of-remove q k ((j, t) ∷ rows) o h = elim (Bool-cases (k.player_id == j.player_id)) [
  | inl same ↦
      let here : some j ≡ some k = rw same at h in
      let e : j ≡ k = cc here in
      let eq : slot_eq k j ≡ true = ap (slot_eq k) e ∙ slot_eq_self k in
      let pid : j.player_id ≡ k.player_id = ap (λ (s : Slot). s.player_id) e in
      let gone : slot_of k.player_id rows ≡ none = ap (λ n. slot_of n rows) (sym pid) ∙ o.0 in
      rw (eq, remove-absent k rows gone) (ground (arith, pid, gone))
  | inr differ ↦
      let eq : slot_eq k j ≡ false = ground (arith, differ) in
      let h' : slot_of k.player_id rows ≡ some k = rw differ at h in
      rw eq (ground (arith, differ, slot_of-remove q k rows o.1 h'))
]

slot_of-remove_other :
    (q : ℕ) (k : Slot) (rows : Rows)
    → slot_of q rows ≡ none
    → slot_of q (remove slot_eq k rows) ≡ none
slot_of-remove_other q k [] h = refl
slot_of-remove_other q k ((j, t) ∷ rows) h = ground (arith, h, slot_of-remove_other q k rows)

Once-remove : (k : Slot) (rows : Rows) → Once rows → Once (remove slot_eq k rows)
Once-remove k [] o = tt
Once-remove k ((j, t) ∷ rows) o = elim (Bool-cases (slot_eq k j)) [
  | inl same ↦ rw same (Once-remove k rows o.1)
  | inr other ↦ rw other (slot_of-remove_other j.player_id k rows o.0, Once-remove k rows o.1)
]

pub no_slot : (o : Option Slot) → key_of o ≡ none → o ≡ none
no_slot none e = refl
no_slot (some k) e = cc

enqueue-IsFrontier :
    (key : FrontierKey) (p : ℕ) (task : FrontierTask) (s : Frontier)
    → Once s.f
    → slot_of p s.f ≡ none
    → ((q : ℕ) → q ≢ p → find ◌==◌ q s.idx ≡ key_of (slot_of q s.f))
    → IsFrontier (enqueue key p task s)
enqueue-IsFrontier key p task s o none_p others = record {
  once = Once-insert (slot key p) task s.f none_p o;
  agrees = λ q.
      find-insert q p key s.idx
      ∙ by_test q (q == p) refl
      ∙ ap key_of (sym (slot_of-insert q (slot key p) task s.f none_p));
}
  where
    by_test :
        (q : ℕ) (b : Bool)
        → (q == p) ≡ b
        → (if b then some key else find ◌==◌ q s.idx)
          ≡ key_of (if b then some (slot key p) else slot_of q s.f)
    by_test q true e = refl
    by_test q false e =
        others q (λ same. let t : (q == p) ≡ true = ground (arith, same) in cc (e, t))

-- The key that the index has for a player is that of the player's row.
pub key-slot :
    (p : ℕ) (rows : Rows) (ex : FrontierKey)
    → key_of (slot_of p rows) ≡ some ex
    → slot_of p rows ≡ some (slot ex p)
key-slot p [] ex h = cc
key-slot p ((k, task) ∷ rows) ex h = elim (Bool-cases (p == k.player_id)) [
  | inl same ↦
      let h' : some (record { platform = k.platform; bucket = k.bucket; due_ms = k.due_ms })
          ≡ some ex =
        rw same at h in
      let e = (==_iff p k.player_id).0 same in rw same (cc (h', e))
  | inr differ ↦
      let h' : key_of (slot_of p rows) ≡ some ex = rw differ at h in
      rw differ (key-slot p rows ex h')
]

-- A player's row is where its key says.
pub key-slot_told :
    (p : ℕ) (rows others : Rows) (o : Option FrontierKey)
    → key_of (slot_of p rows) ≡ o
    → key_of (slot_of p others) ≡ o
    → slot_of p rows ≡ slot_of p others
key-slot_told p rows others none e f =
    no_slot (slot_of p rows) e ∙ sym (no_slot (slot_of p others) f)
key-slot_told p rows others (some ex) e f = key-slot p rows ex e ∙ sym (key-slot p others ex f)

pub removed-others :
    (k : Slot) (s : Frontier)
    → IsFrontier s
    → slot_of k.player_id s.f ≡ some k
    → (q : ℕ) → q ≢ k.player_id
    → slot_of q (remove slot_eq k s.f) ≡ slot_of q s.f
removed-others k s h here q differ =
    let test : (q == k.player_id) ≡ false = ground (arith, differ) in
    slot_of-remove q k s.f h.once here ∙ rw test refl

pub removed_self :
    (k : Slot) (s : Frontier)
    → IsFrontier s
    → slot_of k.player_id s.f ≡ some k
    → slot_of k.player_id (remove slot_eq k s.f) ≡ none
removed_self k s h here =
    slot_of-remove k.player_id k s.f h.once here ∙ rw (==_self k.player_id) refl

pub replace-IsFrontier :
    (k : Slot) (key : FrontierKey) (task : FrontierTask) (s : Frontier)
    → IsFrontier s
    → slot_of k.player_id s.f ≡ some k
    → IsFrontier (enqueue key k.player_id task (record { f = remove slot_eq k s.f; idx = s.idx }))
replace-IsFrontier k key task s h here =
    enqueue-IsFrontier key k.player_id task (record { f = remove slot_eq k s.f; idx = s.idx })
      (Once-remove k s.f h.once) (removed_self k s h here)
      (λ q differ. h.agrees q ∙ ap key_of (sym (removed-others k s h here q differ)))

-- A push keeps the tables in agreement.
pub frontier_push-IsFrontier :
    (platform : String) (bucket due_ms p : ℕ) (task : FrontierTask) (s : Frontier)
    → IsFrontier s
    → IsFrontier (frontier_push platform bucket due_ms p task s)
unfolding frontier_push
frontier_push-IsFrontier platform bucket due_ms p task s h = by_found (find ◌==◌ p s.idx) refl
  where
    by_found :
        (o : Option FrontierKey)
        → find ◌==◌ p s.idx ≡ o
        → IsFrontier (
            push_over (record { platform = platform; bucket = bucket; due_ms = due_ms }) p task s o)
    by_found none e =
        enqueue-IsFrontier (record { platform = platform; bucket = bucket; due_ms = due_ms }) p task
          s h.once (no_slot (slot_of p s.f) (sym (h.agrees p) ∙ e)) (λ q differ. h.agrees q)
    by_found (some ex) e = elim (Bool-cases (leb ex.bucket bucket)) [
      | inl better ↦ rw better h
      | inr worse ↦ rw worse (
          replace-IsFrontier (slot ex p)
            (record { platform = platform; bucket = bucket; due_ms = due_ms }) task s h
            (key-slot p s.f ex (sym (h.agrees p) ∙ e)))
    ]

pub take_row-IsFrontier :
    (s : Frontier) (k : Slot) (task : FrontierTask)
    → IsFrontier s
    → slot_of k.player_id s.f ≡ some k
    → IsFrontier (take_row s (k, task)).1
take_row-IsFrontier s k task h here = record {
  once = Once-remove k s.f h.once;
  agrees = λ q.
      find-remove q k.player_id s.idx
      ∙ ap (λ t. if q == k.player_id then none else t) (h.agrees q)
      ∙ key_if (q == k.player_id) (slot_of q s.f)
      ∙ ap key_of (sym (slot_of-remove q k s.f h.once here));
}
  where
    key_if :
        (b : Bool) (o : Option Slot)
        → (if b then none else key_of o) ≡ key_of (if b then none else o)
    key_if true o = refl
    key_if false o = refl
