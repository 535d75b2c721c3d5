-- ===== src/Broker/Keeps/Dispatch.antt =====
-- `fetch` and `take_jobs` keep the invariant of the jobs.
use lol_crawler.Prelude.{
  ℕ, ◌+◌, inl, inr, refl, Bool, Option, none, some, List, [], ◌∷◌, ◌==◌, Bool-cases, arith,
}
use lol_crawler.Prelude.Maps.{String, find, insert}
use lol_crawler.Broker.{FetchResult, JobState, Queue, Broker, enqueue, fetch, new_job}
use lol_crawler.Broker.Dispatch.{
  Taking, leased, hand_out, lease_picked, take_hosts, pick, cap_of, twin_job, add_twin, add_twins,
  take_jobs,
}
use lol_crawler.Broker.Invariant.{IsJob, Settled, IsBroker, Settled-adjust, Settled-insert}

new_job-IsJob :
    (id : ℕ) (host method path : String) (now : ℕ)
    → IsJob (id + 1) (id, new_job id host method path now)
new_job-IsJob id host method path now = record {
  fresh = omega arith;
  owned = inr refl;
  tries = omega arith;
}

pub enqueue-IsBroker :
    (host method path : String) (now : ℕ) (b : Broker)
    → IsBroker b
    → IsBroker (enqueue host method path now b)
unfolding enqueue
enqueue-IsBroker host method path now b h =
    Settled-insert b.next_id b.jobs b.sent (new_job b.next_id host method path now)
      (new_job-IsJob b.next_id host method path now) h

pub fetch-IsBroker :
    (host method path : String) (now : ℕ) (b : Broker)
    → IsBroker b
    → IsBroker (fetch host method path now b).1
unfolding fetch
fetch-IsBroker host method path now b h = elim (Bool-cases b.shutdown) [
  | inl t ↦ rw t h
  | inr f ↦ rw f (enqueue-IsBroker host method path now b h)
]

module _ (roll : ℕ → Bool) (audit_possible : Bool) (node_id now next : ℕ)
    (sent : List (ℕ × FetchResult)) where
  hand_out-Settled :
      (id : ℕ) (job : Option JobState) (t : Taking)
      → Settled next t.jobs sent
      → Settled next (hand_out roll audit_possible node_id now id job t).jobs sent
  hand_out-Settled id none t h = h
  hand_out-Settled id (some job) t h =
      Settled-adjust next t.jobs sent id (leased roll audit_possible node_id now)
        (λ j e p. record { fresh = p.fresh; owned = p.owned; tries = p.tries }) h

  lease_picked-Settled :
      (ids : List ℕ) (t : Taking)
      → Settled next t.jobs sent
      → Settled next (lease_picked roll audit_possible node_id now ids t).jobs sent
  unfolding lease_picked
  lease_picked-Settled [] t h = h
  lease_picked-Settled (id ∷ ids) t h =
      lease_picked-Settled ids _ (hand_out-Settled id (find ◌==◌ id t.jobs) t h)

  take_hosts-Settled :
      (pending : List (String × ℕ)) (queues : List (String × Queue)) (t : Taking)
      → Settled next t.jobs sent
      → Settled next (take_hosts roll audit_possible node_id now pending queues t).1.jobs sent
  unfolding take_hosts
  take_hosts-Settled pending [] t h = h
  take_hosts-Settled pending ((host, q) ∷ queues) t h =
      take_hosts-Settled pending queues _
        (lease_picked-Settled (pick node_id (cap_of pending host) q).0 t h)

add_twins-IsBroker :
    (node_id now : ℕ) (twins : List (ℕ × String × String × String)) (b : Broker)
    → IsBroker b
    → IsBroker (add_twins node_id now twins b)
unfolding add_twins add_twin
add_twins-IsBroker node_id now [] b h = h
add_twins-IsBroker node_id now ((primary_id, host, method, path) ∷ twins) b h =
    add_twins-IsBroker node_id now twins _ (
      Settled-adjust (b.next_id + 1) (insert ◌==◌ b.next_id twin b.jobs) b.sent primary_id
        (λ job. record job { twin_id = some b.next_id })
        (λ j e p. record { fresh = p.fresh; owned = p.owned; tries = p.tries })
        (Settled-insert b.next_id b.jobs b.sent twin
          (record { fresh = omega arith; owned = inl refl; tries = omega arith }) h))
  where
    twin : JobState
    twin = twin_job node_id now primary_id host method path

pub take_jobs-IsBroker :
    (roll : ℕ → Bool) (node_id : ℕ) (pending : List (String × ℕ)) (now : ℕ) (b : Broker)
    → IsBroker b
    → IsBroker (take_jobs roll node_id pending now b).1
unfolding take_jobs
take_jobs-IsBroker roll node_id pending now b h =
    add_twins-IsBroker node_id now _ _
      (take_hosts-Settled roll _ node_id now b.next_id b.sent pending b.queues _ h)
