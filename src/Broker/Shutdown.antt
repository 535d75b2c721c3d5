-- ===== src/Broker/Shutdown.antt =====
-- `Broker::shutdown` of crates/server/src/broker.rs leaves no fetch waiting.
use lol_crawler.Prelude.{
  ℕ, ◌≡◌, ◌≢◌, refl, true, Option, none, some, List, [], ◌∷◌, ◌++◌, ◌==◌, arith, All, inl, inr,
  Bool-cases,
}
use lol_crawler.Prelude.Maps.{find}
use lol_crawler.Broker.{FetchResult, JobState, Broker, send}
use lol_crawler.Broker.Sweep.{drain, shutdown}

-- Something was sent on the responder.
abbrev pub Answered : List (ℕ × FetchResult) → ℕ → Type 0
Answered sent tx = find ◌==◌ tx sent ≢ none

Answered-append :
    (tx : ℕ) (sent more : List (ℕ × FetchResult)) → Answered sent tx → Answered (sent ++ more) tx
Answered-append tx [] more h = absurd (h refl)
Answered-append tx ((t, r) ∷ sent) more h = elim (Bool-cases (tx == t)) [
  | inl g ↦ rw g (λ e. cc e)
  | inr f ↦ let h' : Answered sent tx = rw f at h in rw f (Answered-append tx sent more h')
]

Answered-last :
    (tx : ℕ) (r : FetchResult) (sent : List (ℕ × FetchResult))
    → Answered (sent ++ ((tx, r) ∷ [])) tx
Answered-last tx r [] = let self : (tx == tx) ≡ true = ground arith in rw self (λ e. cc e)
Answered-last tx r ((t, q) ∷ sent) = elim (Bool-cases (tx == t)) [
  | inl g ↦ rw g (λ e. cc e)
  | inr f ↦ rw f (Answered-last tx r sent)
]

Answered-send :
    (tx : ℕ) (to : Option ℕ) (r : FetchResult) (b : Broker)
    → Answered b.sent tx
    → Answered (send to r b).sent tx
Answered-send tx none r b h = h
Answered-send tx (some t) r b h = Answered-append tx b.sent ((t, r) ∷ []) h

Answered-drain :
    (tx : ℕ) (jobs : List (ℕ × JobState)) (b : Broker)
    → Answered b.sent tx
    → Answered (drain jobs b).sent tx
unfolding drain
Answered-drain tx [] b h = h
Answered-drain tx ((id, job) ∷ jobs) b h =
    Answered-drain tx jobs _ (Answered-send tx job.responder _ b h)

send-Answered :
    (tx : ℕ) (to : Option ℕ) (r : FetchResult) (b : Broker)
    → to ≡ some tx
    → Answered (send to r b).sent tx
send-Answered tx none r b e = cc e
send-Answered tx (some t) r b e =
    let same : t ≡ tx = ground arith in rw same (Answered-last tx r b.sent)

drain-Answered :
    (jobs : List (ℕ × JobState)) (b : Broker)
    → All (λ e. (tx : ℕ) → e.1.responder ≡ some tx → Answered (drain jobs b).sent tx) jobs
unfolding drain
drain-Answered [] b = tt
drain-Answered ((id, job) ∷ jobs) b =
    (λ tx e. Answered-drain tx jobs _ (send-Answered tx job.responder _ b e), drain-Answered jobs _)

-- Behind a shutdown no job and no queue is left, every fetch that waited for a job has been
-- answered, and the broker says that it is shut down.
pub shutdown-Answered :
    (b : Broker)
    → All (λ e. (tx : ℕ) → e.1.responder ≡ some tx → Answered (shutdown b).sent tx) b.jobs
      × ((shutdown b).jobs ≡ [])
      × ((shutdown b).queues ≡ [])
      × ((shutdown b).shutdown ≡ true)
unfolding shutdown
shutdown-Answered b = (drain-Answered b.jobs b, refl, refl, refl)
