-- ===== src/Stats/Ring.antt =====
-- The minute ring: what `advance` and `record` do to the slot of each minute of the last hour.
use lol_crawler.Prelude.{
  ℕ, zero, suc, ◌+◌, ◌-◌, ◌/◌, ◌%◌, ◌≤◌, ◌<◌, ◌≡◌, ◌≢◌, inl, inr, refl, ap, ◌∙◌, Bool, true, List,
  [], ◌∷◌, length, get_or, set, leb, ◌==◌, if◌then◌else◌, Bool-cases, arith,
}
use lol_crawler.Stats.{
  Bucket, NodeStats, no_requests, add, one, clear_slots, advance, record_node, minute_ms,
}

length-set : {A : Type 0} (xs : List A) (i : ℕ) (v : A) → length (set xs i v) ≡ length xs
length-set [] i v = refl
length-set (x ∷ xs) zero v = refl
length-set (x ∷ xs) (suc i) v = ap suc (length-set xs i v)

get_or-set_self :
    {A : Type 0} (xs : List A) (i : ℕ) (v d : A) → i < length xs → get_or (set xs i v) i d ≡ v
get_or-set_self [] i v d h = absurd (omega arith)
get_or-set_self (x ∷ xs) zero v d h = refl
get_or-set_self (x ∷ xs) (suc i) v d h = get_or-set_self xs i v d (omega arith)

get_or-set_other :
    {A : Type 0} (xs : List A) (i j : ℕ) (v d : A) → i ≢ j → get_or (set xs i v) j d ≡ get_or xs j d
get_or-set_other [] i j v d h = refl
get_or-set_other (x ∷ xs) zero zero v d h = absurd (h refl)
get_or-set_other (x ∷ xs) zero (suc j) v d h = refl
get_or-set_other (x ∷ xs) (suc i) zero v d h = refl
get_or-set_other (x ∷ xs) (suc i) (suc j) v d h = get_or-set_other xs i j v d (λ e. h (ap suc e))

-- The bucket of a minute.
abbrev pub slot : List Bucket → ℕ → Bucket
slot minutes k = get_or minutes (k % 60) no_requests

length-clear_slots :
    (head steps : ℕ) (minutes : List Bucket)
    → length (clear_slots head steps minutes) ≡ length minutes
unfolding clear_slots
length-clear_slots head zero minutes = refl
length-clear_slots head (suc steps) minutes =
    length-clear_slots (head + 1) steps _ ∙ length-set minutes ((head + 1) % 60) no_requests

clear_slots-old :
    (head steps k : ℕ) (minutes : List Bucket)
    → head + steps < k + 60
    → k ≤ head
    → slot (clear_slots head steps minutes) k ≡ slot minutes k
unfolding clear_slots
clear_slots-old head zero k minutes h old = refl
clear_slots-old head (suc steps) k minutes h old =
    clear_slots-old (head + 1) steps k _ (omega arith) (omega arith)
    ∙ get_or-set_other minutes ((head + 1) % 60) (k % 60) no_requests no_requests
        (λ e. absurd (omega (arith, e)))

clear_slots-new :
    (head steps k : ℕ) (minutes : List Bucket)
    → length minutes ≡ 60
    → steps ≤ 60
    → head < k
    → k ≤ head + steps
    → slot (clear_slots head steps minutes) k ≡ no_requests
unfolding clear_slots
clear_slots-new head zero k minutes size few h k' = absurd (omega arith)
clear_slots-new head (suc steps) k minutes size few h k' = elim (Bool-cases (k == head + 1)) [
  | inl t ↦
      let e : k ≡ head + 1 = ground arith in
      clear_slots-old (head + 1) steps k _ (omega arith) (omega arith)
      ∙ ap (λ i. get_or (set minutes ((head + 1) % 60) no_requests) (i % 60) no_requests) e
      ∙ get_or-set_self minutes ((head + 1) % 60) no_requests no_requests (omega arith)
  | inr f ↦
      let later : head + 1 < k = ground arith in
      clear_slots-new (head + 1) steps k _ (length-set minutes _ no_requests ∙ size) (omega arith)
        later (omega arith)
]

-- In a ring of sixty slots, moving the head to a later minute keeps the bucket of every minute up
-- to the old head that is still within the hour, and empties that of every minute after it.
pub advance-slot :
    (minute k : ℕ) (ns : NodeStats)
    → length ns.minutes ≡ 60
    → ns.head_minute ≤ minute
    → minute < k + 60
    → k ≤ minute
    → slot (advance minute ns).minutes k
      ≡ (if leb k ns.head_minute then slot ns.minutes k else no_requests)
unfolding advance
advance-slot minute k ns size later recent past = elim (Bool-cases (leb minute ns.head_minute)) [
  | inl t ↦ let old : leb k ns.head_minute ≡ true = ground arith in rw (t, old) refl
  | inr f ↦ rw f (elim (Bool-cases (leb k ns.head_minute)) [
    | inl t ↦
        let few : leb (minute - ns.head_minute) 60 ≡ true = ground arith in
        let bound : k ≤ ns.head_minute = ground arith in
        rw (t, few)
          (clear_slots-old ns.head_minute (minute - ns.head_minute) k ns.minutes (ground arith)
            bound)
    | inr g ↦
        let after : ns.head_minute < k = ground arith in
        rw g (elim (Bool-cases (leb (minute - ns.head_minute) 60)) [
          | inl few ↦ rw few (
              clear_slots-new ns.head_minute (minute - ns.head_minute) k ns.minutes size
                (ground arith) after (ground arith))
          | inr many ↦ rw many (
              ap (λ i. get_or (clear_slots ns.head_minute 60 ns.minutes) i no_requests)
                (same_slot after)
              ∙ clear_slots-new ns.head_minute 60
                  (ns.head_minute + 1 + (k - ns.head_minute - 1) % 60) ns.minutes size (omega arith)
                  (omega arith) (omega arith))
        ])
  ])
]
  where
    same_slot :
        ns.head_minute < k → k % 60 ≡ (ns.head_minute + 1 + (k - ns.head_minute - 1) % 60) % 60
    same_slot after = omega arith

advance-head :
    (minute : ℕ) (ns : NodeStats)
    → ns.head_minute ≤ minute
    → (advance minute ns).head_minute ≡ minute
unfolding advance
advance-head minute ns later = elim (Bool-cases (leb minute ns.head_minute)) [
  | inl t ↦ rw t (ground arith)
  | inr f ↦ rw f refl
]

length-advance :
    (minute : ℕ) (ns : NodeStats) → length (advance minute ns).minutes ≡ length ns.minutes
unfolding advance
length-advance minute ns = elim (Bool-cases (leb minute ns.head_minute)) [
  | inl t ↦ rw t refl
  | inr f ↦ rw f (length-clear_slots ns.head_minute _ ns.minutes)
]

-- The bucket of one minute behind a write to that of another, or to its own.
slot-set :
    (minutes : List Bucket) (m k : ℕ) (b : Bucket)
    → length minutes ≡ 60
    → m < k + 60
    → k ≤ m
    → slot (set minutes (m % 60) (add (slot minutes m) b)) k
      ≡ (if k == m then add (slot minutes k) b else slot minutes k)
slot-set minutes m k b size recent past = elim (Bool-cases (k == m)) [
  | inl t ↦
      let e : k ≡ m = ground arith in
      rw (t, e) (get_or-set_self minutes (m % 60) _ no_requests (omega arith))
  | inr f ↦
      let off : k < m = ground arith in
      rw f
        (get_or-set_other minutes (m % 60) (k % 60) _ no_requests (λ e. absurd (omega (arith, e))))
]

-- A request recorded at a later minute than any before is counted in its own minute's bucket, on
-- top of what that minute had, and every other minute within the hour keeps its own.
pub record_node-slot :
    (is_match : Bool) (now_ms k : ℕ) (ns : NodeStats)
    → length ns.minutes ≡ 60
    → ns.head_minute ≤ now_ms / minute_ms
    → now_ms / minute_ms < k + 60
    → k ≤ now_ms / minute_ms
    → slot (record_node is_match now_ms ns).minutes k ≡ (
        let kept = if leb k ns.head_minute then slot ns.minutes k else no_requests in
        if k == now_ms / minute_ms then add kept (one is_match) else kept)
unfolding record_node
record_node-slot is_match now_ms k ns size later recent past =
    let m : ℕ = now_ms / minute_ms in
    let head = advance-head m ns later in
    let ring = length-advance m ns ∙ size in
    rw (head, ← advance-slot m k ns size later recent past)
      (slot-set (advance m ns).minutes m k (one is_match) ring recent past)
