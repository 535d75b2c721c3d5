-- ===== src/RateLimit/Window.antt =====
-- What a grant of the limiter means for the windows.
use lol_crawler.Prelude.{
  ℕ, zero, suc, ◌-◌, ◌≤◌, ◌<◌, ◌≡◌, ◌≢◌, inl, inr, refl, sym, ◌∙◌, subst, Bool, true, false, Option,
  none, some, List, [], ◌∷◌, ◌++◌, get_elem?, length, leb, Bool-cases, arith, All,
}
use lol_crawler.RateLimit.{
  WindowSpec, Windows, max, max_window, prune, in_window, Attempt, longer, full, check_specs,
  left_of, reserve, windows_open, paced, cooled, acquire,
}
use lol_crawler.RateLimit.Count.{
  Ordered, count_within, in_window-count_within, count_within-prune, Ordered-prune,
  count_within-append,
}

-- The grants and refusals of the loop over the windows.
refused-longer : (a : Attempt) (d : ℕ) → longer a d ≢ Attempt.granted
refused-longer Attempt.granted d e = cc e
refused-longer (Attempt.waits c) d e = cc e
refused-longer Attempt.panics d e = cc e

refused-full : (win now : ℕ) (o : Option ℕ) (a : Attempt) → full win now o a ≢ Attempt.granted
refused-full win now none a e = cc e
refused-full win now (some t) a e = refused-longer a _ e

check_specs-refused :
    (now : ℕ) (sent : List ℕ) (specs : List WindowSpec) (a : Attempt)
    → check_specs now sent specs a ≡ Attempt.granted
    → (a ≡ Attempt.granted) × All (λ s. in_window s.window_ms now sent < s.limit) specs
unfolding check_specs
check_specs-refused now sent [] a e = (e, tt)
check_specs-refused now sent (s ∷ ss) a e =
    elim (Bool-cases (leb s.limit (in_window s.window_ms now sent))) [
      | inl t ↦
          let e' : check_specs now sent ss
                (full s.window_ms now (get_elem? sent (length sent - s.limit)) a)
              ≡ Attempt.granted =
            rw t at e in
          absurd (
            refused-full s.window_ms now (get_elem? sent (length sent - s.limit)) a
              (check_specs-refused now sent ss _ e').0)
      | inr f ↦
          let e' : check_specs now sent ss a ≡ Attempt.granted = rw f at e in
          let (g, rest) = check_specs-refused now sent ss a e' in (g, (ground arith, rest))
    ]

-- What one turn may come to.
data Turn (pace : Bool) (gap : List WindowSpec → ℕ) (now : ℕ) (w : Windows)
    : Attempt × Windows → Type 0 where
  asleep : (d : ℕ) (w' : Windows) → Turn pace gap now w (Attempt.waits d, w')
  looked :
      (w' : Windows)
      → w'.specs ≡ w.specs
      → w'.sent ≡ w.sent
      → Turn pace gap now w (windows_open pace gap now w')

turn :
    (pace : Bool) (gap : List WindowSpec → ℕ) (now : ℕ) (w : Windows)
    → Turn pace gap now w (acquire pace gap now w)
unfolding acquire
turn pace gap now w = here (left_of now w.cooldown_until)
  where
    look : Windows
    look = record w { cooldown_until = none }

    awake : (p : Bool) (slot : Option ℕ) → Turn p gap now w (paced p gap now slot look)
    awake true (some d) = asleep d look
    awake true none = looked look refl refl
    awake false slot = looked look refl refl

    here : (rest : Option ℕ) → Turn pace gap now w (cooled pace gap now rest w)
    here (some d) = asleep d w
    here none = awake pace (left_of now w.next_slot)

reserve-granted :
    (pace : Bool) (gap : List WindowSpec → ℕ) (now : ℕ) (sent : List ℕ) (a : Attempt) (w : Windows)
    → (reserve pace gap now sent a w).0 ≡ a
reserve-granted pace gap now sent Attempt.granted w = refl
reserve-granted pace gap now sent (Attempt.waits d) w = refl
reserve-granted pace gap now sent Attempt.panics w = refl

max_window-bound : (specs : List WindowSpec) → All (λ s. s.window_ms ≤ max_window specs) specs
max_window-bound [] = tt
max_window-bound (s ∷ ss) = (ground arith, wider ss (max_window-bound ss))
  where
    wider :
        (ts : List WindowSpec)
        → All (λ t. t.window_ms ≤ max_window ss) ts
        → All (λ t. t.window_ms ≤ max s.window_ms (max_window ss)) ts
    wider [] h = tt
    wider (t ∷ ts) h = (ground (arith, h.0), wider ts h.1)

-- The sends that the limiter still holds, and the one granted, are within each limit.
within_limits :
    (window now : ℕ) (sent : List ℕ) (specs : List WindowSpec)
    → Ordered now sent
    → All (λ s. s.window_ms ≤ window) specs
    → All (λ s. in_window s.window_ms now (prune window now sent) < s.limit) specs
    → All (λ s. count_within s.window_ms now (sent ++ (now ∷ [])) ≤ s.limit) specs
within_limits window now sent [] ordered wide few = tt
within_limits window now sent (s ∷ ss) ordered wide few = (
  omega (
    arith,
    few.0,
    in_window-count_within s.window_ms now (prune window now sent)
        (Ordered-prune window now sent ordered),
    count_within-prune s.window_ms window now sent wide.0,
    count_within-append s.window_ms now sent,
  ),
  within_limits window now sent ss ordered wide.1 few.1,
)

-- Where the earlier sends stand in order and none is later than the present, a send is granted
-- only if it and the sends before it keep every window within its limit.
pub acquire-within :
    (pace : Bool) (gap : List WindowSpec → ℕ) (now : ℕ) (w : Windows)
    → Ordered now w.sent
    → (acquire pace gap now w).0 ≡ Attempt.granted
    → All (λ s. count_within s.window_ms now (w.sent ++ (now ∷ [])) ≤ s.limit) w.specs
acquire-within pace gap now w ordered e = from_turn (acquire pace gap now w) (turn pace gap now w) e
  where
    from_turn :
        (r : Attempt × Windows)
        → Turn pace gap now w r
        → r.0 ≡ Attempt.granted
        → All (λ s. count_within s.window_ms now (w.sent ++ (now ∷ [])) ≤ s.limit) w.specs
    from_turn r (asleep d w') k = cc k
    from_turn r (looked w' es et) k =
        let sent : List ℕ = prune (max_window w'.specs) now w'.sent in
        let found : check_specs now sent w'.specs Attempt.granted ≡ Attempt.granted =
          sym (reserve-granted pace gap now sent (check_specs now sent w'.specs Attempt.granted) w')
          ∙ k in
        let few = (check_specs-refused now sent w'.specs Attempt.granted found).1 in
        let all : All (λ s. count_within s.window_ms now (w'.sent ++ (now ∷ [])) ≤ s.limit)
            w'.specs =
          within_limits (max_window w'.specs) now w'.sent w'.specs (rw et ordered)
            (max_window-bound w'.specs) few in
        subst (λ ss. All (λ s. count_within s.window_ms now (w.sent ++ (now ∷ [])) ≤ s.limit) ss) es
          (subst
            (λ ts. All (λ s. count_within s.window_ms now (ts ++ (now ∷ [])) ≤ s.limit) w'.specs) et
            all)

in_window-length : (win now : ℕ) (sent : List ℕ) → in_window win now sent ≤ length sent
unfolding in_window
in_window-length win now [] = omega arith
in_window-length win now (t ∷ ts) = ground (arith, in_window-length win now ts)

index_exists : (sent : List ℕ) (i : ℕ) → i < length sent → (t : ℕ) × (get_elem? sent i ≡ some t)
index_exists [] i h = absurd (omega arith)
index_exists (t ∷ ts) zero h = (t, refl)
index_exists (t ∷ ts) (suc i) h = index_exists ts i (omega arith)

longer-panics : (a : Attempt) (d : ℕ) → a ≢ Attempt.panics → longer a d ≢ Attempt.panics
longer-panics Attempt.granted d h e = cc e
longer-panics (Attempt.waits c) d h e = cc e
longer-panics Attempt.panics d h e = h refl

check_specs-panics :
    (now : ℕ) (sent : List ℕ) (specs : List WindowSpec) (a : Attempt)
    → All (λ s. 0 < s.limit) specs
    → a ≢ Attempt.panics
    → check_specs now sent specs a ≢ Attempt.panics
unfolding check_specs
check_specs-panics now sent [] a h k = k
check_specs-panics now sent (s ∷ ss) a h k =
    elim (Bool-cases (leb s.limit (in_window s.window_ms now sent))) [
      | inl t ↦
          let len : in_window s.window_ms now sent ≤ length sent =
            in_window-length s.window_ms now sent in
          let positive : 0 < s.limit = h.0 in
          let limit : s.limit ≤ in_window s.window_ms now sent = ground arith in
          let (nth, e) = index_exists sent (length sent - s.limit) (omega arith) in
          rw t (rw e (check_specs-panics now sent ss _ h.1 (longer-panics a _ k)))
      | inr f ↦ rw f (check_specs-panics now sent ss a h.1 k)
    ]

-- With no limit of zero among the windows, a turn of `acquire` indexes no send that is not there.
pub acquire-panics :
    (pace : Bool) (gap : List WindowSpec → ℕ) (now : ℕ) (w : Windows)
    → All (λ s. 0 < s.limit) w.specs
    → (acquire pace gap now w).0 ≢ Attempt.panics
acquire-panics pace gap now w h e = from_turn (acquire pace gap now w) (turn pace gap now w) e
  where
    from_turn : (r : Attempt × Windows) → Turn pace gap now w r → r.0 ≢ Attempt.panics
    from_turn r (asleep d w') k = cc k
    from_turn r (looked w' es et) k =
        let sent : List ℕ = prune (max_window w'.specs) now w'.sent in
        check_specs-panics now sent w'.specs Attempt.granted
          (subst (λ ss. All (λ s. 0 < s.limit) ss) (sym es) h) (λ g. cc g)
          (sym
              (reserve-granted pace gap now sent (check_specs now sent w'.specs Attempt.granted) w')
            ∙ k)
