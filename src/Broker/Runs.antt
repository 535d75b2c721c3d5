-- ===== src/Broker/Runs.antt =====
-- Runs of the broker: any sequence of its operations, from a new one.
use lol_crawler.Prelude.{ℕ, Bool, Option, List}
use lol_crawler.Prelude.Maps.{String}
use lol_crawler.Registry.{Registry}
use lol_crawler.Stats.{Stats}
use lol_crawler.Broker
use lol_crawler.Broker.{
  FetchError, FetchResult, JobState, AuditBody, AuditPair, Queue, Broker, send, enqueue, fetch,
  max_attempts,
}
use lol_crawler.Broker.Dispatch.{take_jobs}
use lol_crawler.Broker.Results.{JobResult, complete}
use lol_crawler.Broker.Sweep.{sweep, shutdown}
use lol_crawler.Broker.Invariant.{IsBroker}
use lol_crawler.Broker.Keeps.Dispatch.{enqueue-IsBroker, fetch-IsBroker, take_jobs-IsBroker}
use lol_crawler.Broker.Keeps.Results.{complete-IsBroker}
use lol_crawler.Broker.Keeps.Sweep.{sweep-IsBroker, shutdown-IsBroker}

module _ {Json : Type 0} (parse_json : String → Option Json) (same_json : Json → Json → Bool) where
  -- One operation, with whatever arguments. `enqueues` is that of a `fetch` which looked at
  -- `shutdown` before other operations ran.
  pub data Step : Broker → Broker → Type 0 where
    fetches :
        (host method path : String) (now : ℕ) (b : Broker) → Step b (fetch host method path now b).1
    enqueues :
        (host method path : String) (now : ℕ) (b : Broker) → Step b (enqueue host method path now b)
    takes :
        (roll : ℕ → Bool) (node_id : ℕ) (pending : List (String × ℕ)) (now : ℕ) (b : Broker)
        → Step b (take_jobs roll node_id pending now b).1
    completes :
        (node_id now_unix_ms : ℕ) (res : JobResult) (b : Broker)
        → Step b (complete parse_json same_json node_id now_unix_ms res b)
    sweeps : (now : ℕ) (b : Broker) → Step b (sweep now b)
    shuts_down : (b : Broker) → Step b (shutdown b)

  pub data Reachable : Broker → Type 0 where
    start : (registry : Registry) (stats : Stats) → Reachable (Broker.new registry stats)
    step : {b b' : Broker} → Reachable b → Step b b' → Reachable b'

  Step-IsBroker : {b b' : Broker} → Step b b' → IsBroker b → IsBroker b'
  Step-IsBroker (fetches host method path now b) h = fetch-IsBroker host method path now b h
  Step-IsBroker (enqueues host method path now b) h = enqueue-IsBroker host method path now b h
  Step-IsBroker (takes roll node_id pending now b) h =
      take_jobs-IsBroker roll node_id pending now b h
  Step-IsBroker (completes node_id now_unix_ms res b) h =
      complete-IsBroker parse_json same_json node_id now_unix_ms res b h
  Step-IsBroker (sweeps now b) h = sweep-IsBroker now b h
  Step-IsBroker (shuts_down b) h = shutdown-IsBroker b h

  -- In a broker that any operations have led to, every job in the map has an id below the next
  -- one, the responder it was made with or none, and fewer than six attempts; no id stands twice;
  -- a responder that a result was sent on is that of a job that has left the map; and no two
  -- results were sent on one responder.
  pub Reachable-IsBroker : {b : Broker} → Reachable b → IsBroker b
  Reachable-IsBroker (start registry stats) = record {
    live = tt;
    distinct = tt;
    gone = tt;
    once = tt;
  }
  Reachable-IsBroker (step r s) = Step-IsBroker s (Reachable-IsBroker r)
