-- ===== src/Broker/Keeps/Sweep.antt =====
-- `sweep` and `shutdown` keep the invariant of the jobs.
use lol_crawler.Prelude.{
  ℕ, ◌≡◌, refl, ◌∙◌, true, Option, none, some, List, [], ◌∷◌, ◌==◌, arith, All,
}
use lol_crawler.Prelude.Maps.{find}
use lol_crawler.Prelude.Result.{err}
use lol_crawler.Broker.{FetchError, FetchResult, JobState, Broker, send}
use lol_crawler.Broker.Sweep.{release_all, drop_twins, sweep, drain, shutdown, expired}
use lol_crawler.Broker.Invariant.{Gone, Settled, IsBroker, Settled-remove, Settled-send, unused}
use lol_crawler.Broker.Keeps.Results.{release-IsBroker}

release_all-IsBroker : (ids : List ℕ) (b : Broker) → IsBroker b → IsBroker (release_all ids b)
unfolding release_all
release_all-IsBroker [] b h = h
release_all-IsBroker (id ∷ ids) b h = release_all-IsBroker ids _ (release-IsBroker id true b h)

drop_twins-IsBroker : (ids : List ℕ) (b : Broker) → IsBroker b → IsBroker (drop_twins ids b)
unfolding drop_twins
drop_twins-IsBroker [] b h = h
drop_twins-IsBroker (id ∷ ids) b h =
    drop_twins-IsBroker ids _ (Settled-remove b.next_id b.jobs b.sent id h)

pub sweep-IsBroker : (now : ℕ) (b : Broker) → IsBroker b → IsBroker (sweep now b)
unfolding sweep
sweep-IsBroker now b h = drop_twins-IsBroker _ _ (release_all-IsBroker (expired now b.jobs) b h)

-- The jobs to come are answered for the first time.
drain-Settled :
    (next : ℕ) (jobs : List (ℕ × JobState)) (b : Broker)
    → Settled next jobs b.sent
    → Settled next [] (drain jobs b).sent
unfolding drain
drain-Settled next [] b h = h
drain-Settled next ((id, job) ∷ jobs) b h =
    let here : find ◌==◌ id ((id, job) ∷ jobs) ≡ some job = ground arith in
    drain-Settled next jobs _ (
      Settled-send next id jobs job.responder _ b h.live.0.fresh h.live.0.owned h.distinct.0
        (unused next ((id, job) ∷ jobs) b.sent id here h.gone)
        (record {
          live = h.live.1;
          distinct = h.distinct.1;
          gone = rest b.sent h.gone;
          once = h.once;
        }))
  where
    rest :
        (ss : List (ℕ × FetchResult))
        → All (Gone next ((id, job) ∷ jobs)) ss
        → All (Gone next jobs) ss
    rest [] g = tt
    rest (s ∷ ss) g =
        let after : find ◌==◌ s.0 jobs ≡ none = ground (arith, g.0.1) in
        ((g.0.0, after), rest ss g.1)

drain-next : (jobs : List (ℕ × JobState)) (b : Broker) → (drain jobs b).next_id ≡ b.next_id
unfolding drain
drain-next [] b = refl
drain-next ((id, job) ∷ jobs) b = drain-next jobs _ ∙ same job.responder
  where
    same : (tx : Option ℕ) → (send tx (err FetchError.server_shutting_down) b).next_id ≡ b.next_id
    same none = refl
    same (some t) = refl

pub shutdown-IsBroker : (b : Broker) → IsBroker b → IsBroker (shutdown b)
unfolding shutdown
shutdown-IsBroker b h = rw (drain-next b.jobs b) (drain-Settled b.next_id b.jobs b h)
