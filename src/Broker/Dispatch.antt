-- ===== src/Broker/Dispatch.antt =====
-- `Broker::take_jobs` of crates/server/src/broker.rs: it leases queued jobs to a node, and makes the
-- audit twins. `roll` says for which jobs the dice ask for an audit.
use lol_crawler.Prelude.{
  ℕ, zero, suc, ◌+◌, ◌-◌, Bool, true, false, not, ◌&&◌, Option, none, some, List, [], ◌∷◌, ◌++◌,
  if◌then◌else◌, ◌==◌,
}
use lol_crawler.Prelude.Maps.{String, str_eq, find, adjust, insert}
use lol_crawler.Registry.{active_node_other_than}
use lol_crawler.Broker.{
  JobState, AuditPair, Queue, Broker, push_back, target_inflight_per_host, lease_ms,
}

-- A job as it goes out to a node.
pub record Job : Type 0 where
  pub id : ℕ
  pub host : String
  pub method : String
  pub path : String
  pub lease_ms : ℕ

abbrev pub is_node : ℕ → Option ℕ → Bool
is_node node_id none = false
is_node node_id (some n) = n == node_id

abbrev pub is_none : {A : Type 0} → Option A → Bool
is_none none = true
is_none (some a) = false

-- At most `cap` entries off the queue, those that exclude the node left in place.
unfoldable pub pick : ℕ → ℕ → Queue → List ℕ × Queue
pick node_id zero q = ([], q)
pick node_id (suc cap) [] = ([], [])
pick node_id (suc cap) ((id, exclude) ∷ q) =
    let skipped = pick node_id (suc cap) q in
    let picked = pick node_id cap q in
    if is_node node_id exclude
    then (skipped.0, (id, exclude) ∷ skipped.1)
    else (id ∷ picked.0, picked.1)

-- How many jobs the node may be given for a host.
abbrev pub cap_of : List (String × ℕ) → String → ℕ
cap_of pending host = elim (find str_eq host pending) [
  | some held ↦ target_inflight_per_host - held
  | none ↦ target_inflight_per_host
]

-- The jobs, the output and the twins to make, as the loop goes.
pub record Taking : Type 0 where
  pub jobs : List (ℕ × JobState)
  pub out : List Job
  pub new_twins : List (ℕ × String × String × String)

module _ (roll : ℕ → Bool) (audit_possible : Bool) (node_id now : ℕ) where
  abbrev pub leased : JobState → JobState
  leased job = record job { lease = some (node_id, now + lease_ms) }

  abbrev pub wants_twin : ℕ → JobState → Bool
  wants_twin id job = not job.is_twin && (is_none job.twin_id && (audit_possible && roll id))

  abbrev pub hand_out : ℕ → Option JobState → Taking → Taking
  hand_out id none t = t
  hand_out id (some job) t = record {
    jobs = adjust ◌==◌ id leased t.jobs;
    out =
        t.out
        ++ (record {
          id = id;
          host = job.host;
          method = job.method;
          path = job.path;
          lease_ms = lease_ms;
        }
            ∷ []);
    new_twins =
        if wants_twin id job
        then t.new_twins ++ ((id, job.host, job.method, job.path) ∷ [])
        else t.new_twins;
  }

  -- An entry can outlive its job.
  unfoldable pub lease_picked : List ℕ → Taking → Taking
  lease_picked [] t = t
  lease_picked (id ∷ ids) t = lease_picked ids (hand_out id (find ◌==◌ id t.jobs) t)

  -- Each host's queue in turn.
  unfoldable pub take_hosts :
      List (String × ℕ) → List (String × Queue) → Taking → List (String × Queue) × Taking
  take_hosts pending [] t = ([], t)
  take_hosts pending ((host, q) ∷ queues) t =
      let (picked, q') = pick node_id (cap_of pending host) q in
      let (queues', t') = take_hosts pending queues (lease_picked picked t) in
      ((host, q') ∷ queues', t')

abbrev pub twin_job : ℕ → ℕ → ℕ → String → String → String → JobState
twin_job node_id now primary_id host method path = record {
  host = host;
  method = method;
  path = path;
  responder = none;
  lease = none;
  attempts = 0;
  exclude_node = some node_id;
  twin_id = some primary_id;
  is_twin = true;
  created = now;
}

abbrev pub new_pair : ℕ → String → String → AuditPair
new_pair node_id method path = record {
  method = method;
  path = path;
  primary_node = node_id;
  twin_node = none;
  primary = none;
  twin = none;
}

unfoldable pub add_twin : ℕ → ℕ → ℕ × String × String × String → Broker → Broker
add_twin node_id now (primary_id, host, method, path) b = record b {
  next_id = b.next_id + 1;
  jobs =
      adjust ◌==◌ primary_id (λ job. record job { twin_id = some b.next_id })
        (insert ◌==◌ b.next_id (twin_job node_id now primary_id host method path) b.jobs);
  queues = push_back host (b.next_id, some node_id) b.queues;
  audits = insert ◌==◌ b.next_id (new_pair node_id method path) b.audits;
}

unfoldable pub add_twins : ℕ → ℕ → List (ℕ × String × String × String) → Broker → Broker
add_twins node_id now [] b = b
add_twins node_id now (twin ∷ twins) b = add_twins node_id now twins (add_twin node_id now twin b)

unfoldable pub take_jobs :
    (roll : ℕ → Bool) → ℕ → List (String × ℕ) → ℕ → Broker → List Job × Broker
take_jobs roll node_id pending now b =
    let audit_possible = active_node_other_than now node_id b.registry in
    let (queues, t) =
      take_hosts roll audit_possible node_id now pending b.queues
        (record { jobs = b.jobs; out = []; new_twins = [] }) in
    (t.out, add_twins node_id now t.new_twins (record b { jobs = t.jobs; queues = queues }))
