-- ===== src/Broker/Invariant.antt =====
-- The invariant of the broker's jobs, and what the single updates do to it.
use lol_crawler.Prelude.{
  ℕ, ◌+◌, ◌<◌, ◌≡◌, ◌≢◌, ◌⊎◌, inl, inr, sym, Option, none, some, List, [], ◌∷◌, ◌++◌, ◌==◌, arith,
  All, All-append,
}
use lol_crawler.Prelude.Maps.{find, adjust, insert, remove}
use lol_crawler.Prelude.Maps.Laws.{
  Distinct, Distinct-remove, Distinct-adjust, Distinct-insert, find-remove_self, find-remove-none,
  find-adjust-none, find-insert-none, All-find, All-remove, All-adjust, All-insert,
}
use lol_crawler.Broker.{FetchResult, JobState, Broker, send, max_attempts}

-- A job in the map: its id has been handed out, its responder is its own, and it has tries left.
pub record IsJob (next : ℕ) (e : ℕ × JobState) : Type 0 where
  pub fresh : e.0 < next
  pub owned : (e.1.responder ≡ none) ⊎ (e.1.responder ≡ some e.0)
  pub tries : e.1.attempts < max_attempts

-- Nothing is sent twice on a responder.
abbrev pub Once : List (ℕ × FetchResult) → Type 0
Once [] = Unit {0}
Once (s ∷ ss) = All (λ t. t.0 ≢ s.0) ss × Once ss

-- A responder that was used is that of a job that is gone.
abbrev pub Gone : ℕ → List (ℕ × JobState) → ℕ × FetchResult → Type 0
Gone next jobs s = (s.0 < next) × (find ◌==◌ s.0 jobs ≡ none)

pub record Settled (next : ℕ) (jobs : List (ℕ × JobState)) (sent : List (ℕ × FetchResult))
    : Type 0 where
  pub live : All (IsJob next) jobs
  pub distinct : Distinct jobs
  pub gone : All (Gone next jobs) sent
  pub once : Once sent

abbrev pub IsBroker : Broker → Type 0
IsBroker b = Settled b.next_id b.jobs b.sent

module _ {A : Type 0} (P Q : A → Type 0) where
  pub All-map : ((a : A) → P a → Q a) → (xs : List A) → All P xs → All Q xs
  All-map f [] h = tt
  All-map f (x ∷ xs) h = (f x h.0, All-map f xs h.1)

-- The jobs change to others, of which each was among them or is a new one.
module _ (next : ℕ) (jobs : List (ℕ × JobState)) (sent : List (ℕ × FetchResult)) where
  pub Settled-remove : (id : ℕ) → Settled next jobs sent → Settled next (remove ◌==◌ id jobs) sent
  Settled-remove id h = record {
    live = All-remove (IsJob next) id jobs h.live;
    distinct = Distinct-remove id jobs h.distinct;
    gone =
        All-map (Gone next jobs) (Gone next (remove ◌==◌ id jobs))
          (λ s g. (g.0, find-remove-none s.0 id jobs g.1)) sent h.gone;
    once = h.once;
  }

  pub Settled-adjust :
      (id : ℕ) (f : JobState → JobState)
      → ((job : JobState)
          → find ◌==◌ id jobs ≡ some job
          → IsJob next (id, job)
          → IsJob next (id, f job))
      → Settled next jobs sent
      → Settled next (adjust ◌==◌ id f jobs) sent
  Settled-adjust id f keeps h = record {
    live = All-adjust (IsJob next) id f jobs keeps h.live;
    distinct = Distinct-adjust id f jobs h.distinct;
    gone =
        All-map (Gone next jobs) (Gone next (adjust ◌==◌ id f jobs))
          (λ s g. (g.0, find-adjust-none s.0 id f jobs g.1)) sent h.gone;
    once = h.once;
  }

  IsJob-suc : (e : ℕ × JobState) → IsJob next e → IsJob (next + 1) e
  IsJob-suc e h = record { fresh = omega (arith, h.fresh); owned = h.owned; tries = h.tries }

  pub Settled-insert :
      (job : JobState)
      → IsJob (next + 1) (next, job)
      → Settled next jobs sent
      → Settled (next + 1) (insert ◌==◌ next job jobs) sent
  Settled-insert job new h = record {
    live =
        All-insert (IsJob (next + 1)) next job jobs new
          (All-map (IsJob next) (IsJob (next + 1)) IsJob-suc jobs h.live);
    distinct = Distinct-insert next job jobs h.distinct;
    gone =
        All-map (Gone next jobs) (Gone (next + 1) (insert ◌==◌ next job jobs))
          (λ s g. (
            omega (arith, g.0),
            find-insert-none s.0 next job jobs (λ e. absurd (omega (arith, e, g.0))) g.1,
          ))
          sent h.gone;
    once = h.once;
  }

Once-append :
    (sent : List (ℕ × FetchResult)) (s : ℕ × FetchResult)
    → All (λ t. t.0 ≢ s.0) sent
    → Once sent
    → Once (sent ++ (s ∷ []))
Once-append [] s h k = (tt, tt)
Once-append (t ∷ ts) s h k =
    (All-append (λ u. u.0 ≢ t.0) ts (s ∷ []) k.0 ((λ e. h.0 (sym e)), tt), Once-append ts s h.1 k.1)

-- A result is sent on the responder of a job that has been taken out.
pub Settled-send :
    (next id : ℕ) (jobs : List (ℕ × JobState)) (tx : Option ℕ) (result : FetchResult) (b : Broker)
    → id < next
    → (tx ≡ none) ⊎ (tx ≡ some id)
    → find ◌==◌ id jobs ≡ none
    → All (λ s. s.0 ≢ id) b.sent
    → Settled next jobs b.sent
    → Settled next jobs (send tx result b).sent
Settled-send next id jobs none result b fresh owned out off h = h
Settled-send next id jobs (some tx) result b fresh owned out off h = elim owned [
  | inl e ↦ cc e
  | inr e ↦
      let same : tx ≡ id = ground arith in
      let off' : All (λ s. s.0 ≢ tx) b.sent = rw same off in
      record {
        live = h.live;
        distinct = h.distinct;
        gone =
            All-append (Gone next jobs) b.sent ((tx, result) ∷ []) h.gone
              ((rw same fresh, rw same out), tt);
        once = Once-append b.sent (tx, result) off' h.once;
      }
]

-- The responder of a job in the map has not been used.
pub unused :
    (next : ℕ) (jobs : List (ℕ × JobState)) (sent : List (ℕ × FetchResult)) (id : ℕ)
    {job : JobState}
    → find ◌==◌ id jobs ≡ some job
    → All (Gone next jobs) sent
    → All (λ s. s.0 ≢ id) sent
unused next jobs sent id {job} found =
    All-map (Gone next jobs) (λ s. s.0 ≢ id)
      (λ s g e. let e' : find ◌==◌ s.0 jobs ≡ some job = rw e found in cc (e', g.1)) sent

-- A job is taken out, and its result sent.
pub Settled-settle :
    (next id : ℕ) (jobs : List (ℕ × JobState)) (job : JobState) (result : FetchResult) (b : Broker)
    → find ◌==◌ id jobs ≡ some job
    → Settled next jobs b.sent
    → Settled next (remove ◌==◌ id jobs) (send job.responder result b).sent
Settled-settle next id jobs job result b found h =
    let is_job : IsJob next (id, job) = All-find (IsJob next) id jobs h.live found in
    Settled-send next id (remove ◌==◌ id jobs) job.responder result b is_job.fresh is_job.owned
      (find-remove_self id jobs) (unused next jobs b.sent id found h.gone)
      (Settled-remove next jobs b.sent id h)
