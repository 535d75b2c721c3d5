-- ===== src/Broker.antt =====
-- The state of the fetch broker of crates/server/src/broker.rs. An `Instant` is a number of
-- milliseconds. Every operation holds the lock of `Inner` while it reads and writes this state, so
-- what it does there is one step. A responder is named by the id of the job that was made with it,
-- and `sent` lists what was sent, the first first. `next_id` is a u64 there, and does not wrap in
-- fewer than 2^64 jobs; here it is unbounded.
pub mod Dispatch
pub mod Results
pub mod Sweep
pub mod Invariant
pub mod Keeps
pub mod Shutdown
pub mod Runs
pub mod Answers
pub mod Caps
use lol_crawler.Prelude.{
  ℕ, ◌+◌, Bool, true, false, Option, none, some, List, [], ◌∷◌, ◌++◌, if◌then◌else◌, ◌==◌,
}
use lol_crawler.Prelude.Int.{IsU32}
use lol_crawler.Prelude.Maps.{String, str_eq, find, insert}
use lol_crawler.Prelude.Result.{Result, ok, err}
use lol_crawler.Registry.{Registry}
use lol_crawler.Registry
use lol_crawler.Stats.{Stats}

abbrev pub target_inflight_per_host : ℕ
target_inflight_per_host = 8

abbrev pub max_attempts : ℕ
max_attempts = 6

abbrev pub twin_ttl : ℕ
twin_ttl = 600000

abbrev pub lease_ms : ℕ
lease_ms = 150000

-- Why a fetch fails.
pub data FetchError : Type 0 where
  abandoned : String → String → FetchError
  server_shutting_down broker_shut_down : FetchError

abbrev pub FetchResult : Type 0
FetchResult = Result FetchError (Option String)

pub record JobState : Type 0 where
  pub host : String
  pub method : String
  pub path : String
  pub responder : Option ℕ
  pub lease : Option (ℕ × ℕ)
  pub attempts : ℕ
  pub exclude_node : Option ℕ
  pub twin_id : Option ℕ
  pub is_twin : Bool
  pub created : ℕ

pub data AuditBody : Type 0 where
  found_body : String → AuditBody
  not_found : AuditBody

pub record AuditPair : Type 0 where
  pub method : String
  pub path : String
  pub primary_node : ℕ
  pub twin_node : Option ℕ
  pub primary : Option AuditBody
  pub twin : Option AuditBody

abbrev pub Queue : Type 0
Queue = List (ℕ × Option ℕ)

pub record Broker : Type 0 where
  pub next_id : ℕ
  pub jobs : List (ℕ × JobState)
  pub queues : List (String × Queue)
  pub audits : List (ℕ × AuditPair)
  pub registry : Registry
  pub stats : Stats
  pub shutdown : Bool
  pub sent : List (ℕ × FetchResult)

-- `Broker::new`.
abbrev pub new : Registry → Stats → Broker
new registry stats = record {
  next_id = 1;
  jobs = [];
  queues = [];
  audits = [];
  registry = registry;
  stats = stats;
  shutdown = false;
  sent = [];
}

-- `queues.entry(host).or_default().push_back(entry)`.
abbrev pub push_back : String → ℕ × Option ℕ → List (String × Queue) → List (String × Queue)
push_back host entry [] = (host, entry ∷ []) ∷ []
push_back host entry ((h, q) ∷ queues) =
    if str_eq host h then (h, q ++ (entry ∷ [])) ∷ queues else (h, q) ∷ push_back host entry queues

-- The job that `fetch` makes.
abbrev pub new_job : ℕ → String → String → String → ℕ → JobState
new_job id host method path now = record {
  host = host;
  method = method;
  path = path;
  responder = some id;
  lease = none;
  attempts = 0;
  exclude_node = none;
  twin_id = none;
  is_twin = false;
  created = now;
}

-- What `fetch` does under the lock.
unfoldable pub enqueue : String → String → String → ℕ → Broker → Broker
enqueue host method path now b = record b {
  next_id = b.next_id + 1;
  jobs = insert ◌==◌ b.next_id (new_job b.next_id host method path now) b.jobs;
  queues = push_back host (b.next_id, none) b.queues;
}

-- `fetch` up to its wait, which ends when a result is sent on the responder it returns. It looks at
-- `shutdown` before it takes the lock, so another operation can stand between the look and
-- `enqueue`.
unfoldable pub fetch : String → String → String → ℕ → Broker → Result FetchError ℕ × Broker
unfolding enqueue
fetch host method path now b =
    if b.shutdown
    then (err FetchError.broker_shut_down, b)
    else (ok b.next_id, enqueue host method path now b)

-- `tx.send(result)`, if there is a responder.
abbrev pub send : Option ℕ → FetchResult → Broker → Broker
send none result b = b
send (some tx) result b = record b { sent = b.sent ++ ((tx, result) ∷ []) }
