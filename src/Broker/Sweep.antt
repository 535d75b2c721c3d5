-- ===== src/Broker/Sweep.antt =====
-- `Broker::sweep`, `shutdown` and `depth` of crates/server/src/broker.rs.
use lol_crawler.Prelude.{
  ℕ, suc, ◌-◌, Bool, true, false, ◌&&◌, Option, none, some, List, [], ◌∷◌, if◌then◌else◌, ◌==◌, leb,
  ltb, length,
}
use lol_crawler.Prelude.Maps.{remove}
use lol_crawler.Prelude.Result.{err}
use lol_crawler.Broker.{FetchError, JobState, Broker, send, twin_ttl}
use lol_crawler.Broker.Dispatch.{is_none}
use lol_crawler.Broker.Results.{release}

abbrev pub lease_over : ℕ → Option (ℕ × ℕ) → Bool
lease_over now none = false
lease_over now (some (node, exp)) = leb exp now

abbrev pub expired : ℕ → List (ℕ × JobState) → List ℕ
expired now [] = []
expired now ((id, j) ∷ jobs) =
    let rest = expired now jobs in if lease_over now j.lease then id ∷ rest else rest

abbrev pub stale : ℕ → JobState → Bool
stale now j = j.is_twin && (is_none j.lease && ltb twin_ttl (now - j.created))

abbrev pub stale_twins : ℕ → List (ℕ × JobState) → List ℕ
stale_twins now [] = []
stale_twins now ((id, j) ∷ jobs) =
    let rest = stale_twins now jobs in if stale now j then id ∷ rest else rest

unfoldable pub release_all : List ℕ → Broker → Broker
release_all [] b = b
release_all (id ∷ ids) b = release_all ids (release id true b)

unfoldable pub drop_twins : List ℕ → Broker → Broker
drop_twins [] b = b
drop_twins (id ∷ ids) b =
    drop_twins ids (record b { jobs = remove ◌==◌ id b.jobs; audits = remove ◌==◌ id b.audits })

unfoldable pub sweep : ℕ → Broker → Broker
sweep now b = let b1 = release_all (expired now b.jobs) b in drop_twins (stale_twins now b1.jobs) b1

unfoldable pub drain : List (ℕ × JobState) → Broker → Broker
drain [] b = b
drain ((id, job) ∷ jobs) b = drain jobs (send job.responder (err FetchError.server_shutting_down) b)

unfoldable pub shutdown : Broker → Broker
shutdown b = record (drain b.jobs b) { shutdown = true; jobs = []; queues = []; audits = [] }

abbrev leased_count : List (ℕ × JobState) → ℕ
leased_count [] = 0
leased_count ((id, j) ∷ jobs) =
    if is_none j.lease then leased_count jobs else suc (leased_count jobs)

-- The jobs queued, and those leased.
unfoldable pub depth : Broker → ℕ × ℕ
depth b = let leased = leased_count b.jobs in (length b.jobs - leased, leased)
