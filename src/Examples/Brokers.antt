-- ===== src/Examples/Brokers.antt =====
-- A broker with one fetch, a limiter with two sends, and a ring of requests.
use lol_crawler.Prelude.{
  ℕ, ◌/◌, ◌≤◌, ◌≡◌, ◌≢◌, inr, refl, subst, Bool, true, false, Option, none, some, List, [], ◌∷◌,
  ◌++◌, length, leb, ◌==◌, if◌then◌else◌, arith, All,
}
use lol_crawler.Prelude.Maps.{String, find}
use lol_crawler.Registry
use lol_crawler.Stats.{
  Bucket, NodeStats, Stats, no_requests, add, one, advance, record_node, minute_ms,
}
use lol_crawler.Stats
use lol_crawler.Stats.Ring.{slot, advance-slot, record_node-slot}
use lol_crawler.Broker
use lol_crawler.Broker.{Broker, JobState, Queue, enqueue, fetch, new_job}
use lol_crawler.Broker.Dispatch.{pick, lease_picked, take_hosts, add_twins, take_jobs}
use lol_crawler.Registry.{active_node_other_than}
use lol_crawler.Broker.Results.{JobResult, JobOutcome, complete}
use lol_crawler.Broker.Sweep.{shutdown}
use lol_crawler.Broker.Shutdown.{Answered, shutdown-Answered}
use lol_crawler.Broker.Invariant.{IsBroker}
use lol_crawler.Broker.Runs.{Step, Reachable, Reachable-IsBroker}
use lol_crawler.Broker.Answers.{
  told, left, waiting, answers, IsElsewhere, complete-answers, complete-stale,
}
use lol_crawler.Broker.Caps.{Split, pick-Split, Batches, take_jobs-Batches}
use lol_crawler.RateLimit
use lol_crawler.RateLimit.{WindowSpec, Windows, Attempt, acquire, check_specs, in_window, prune}
use lol_crawler.RateLimit.Count.{count_within}
use lol_crawler.RateLimit.Window.{acquire-within, acquire-panics}

abbrev parse_text : String → Option String
parse_text s = some s

abbrev never_same : String → String → Bool
never_same a b = false

abbrev first_broker : Broker
first_broker = Broker.new Registry.empty []

-- A fetch of "x" from host "e".
abbrev fetched : Broker
fetched = (fetch (101 ∷ []) (109 ∷ []) (120 ∷ []) 10 first_broker).1

abbrev answer : JobResult
answer = record { id = 1; outcome = JobOutcome.ok; body = some (123 ∷ []); error = none }

abbrev answered : Broker
answered = complete parse_text never_same 4 20 answer fetched

answered-Reachable : Reachable parse_text never_same answered
answered-Reachable =
    Reachable.step
      (Reachable.step (Reachable.start Registry.empty [])
        (Step.fetches (101 ∷ []) (109 ∷ []) (120 ∷ []) 10 first_broker))
      (Step.completes 4 20 answer fetched)

Reachable-IsBroker_example : IsBroker answered
Reachable-IsBroker_example = Reachable-IsBroker parse_text never_same answered-Reachable

fetched_job : find ◌==◌ 1 fetched.jobs ≡ some (new_job 1 (101 ∷ []) (109 ∷ []) (120 ∷ []) 10)
unfolding fetch enqueue
fetched_job = refl

-- The fetch as node 5 has it.
abbrev taken : Broker
taken = (take_jobs (λ id. false) 5 [] 30 fetched).1

abbrev taken_job : JobState
taken_job = record (new_job 1 (101 ∷ []) (109 ∷ []) (120 ∷ []) 10) { lease = some (5, 150030) }

taken_found : find ◌==◌ 1 taken.jobs ≡ some taken_job
unfolding fetch enqueue take_jobs take_hosts pick lease_picked add_twins active_node_other_than
taken_found = refl

complete-answers_example :
    ((complete parse_text never_same 5 40 answer taken).sent
      ≡ taken.sent ++ answers 1 (told answer.outcome answer.body answer.error taken_job))
    × (find ◌==◌ 1 (complete parse_text never_same 5 40 answer taken).jobs
        ≡ left answer.outcome taken_job)
    × ((complete parse_text never_same 5 40 answer taken).queues
        ≡ waiting answer.id taken_job (left answer.outcome taken_job) taken.queues)
complete-answers_example =
    complete-answers parse_text never_same 5 40 answer taken_job 1 taken taken_found
      (inr (150030, refl)) refl

-- Node 4 answers for node 5.
taken-IsElsewhere : (job : JobState) → find ◌==◌ 1 taken.jobs ≡ some job → IsElsewhere 4 job.lease
taken-IsElsewhere job e =
    let same : taken_job ≡ job = cc (e, taken_found) in
    subst (λ (j : JobState). IsElsewhere 4 j.lease) same (λ five. absurd (omega arith))

complete-stale_example : complete parse_text never_same 4 40 answer taken ≡ taken
complete-stale_example = complete-stale parse_text never_same 4 40 answer taken taken-IsElsewhere

abbrev three_entries : Queue
three_entries = (1, some 4) ∷ (2, none) ∷ (3, none) ∷ []

pick-Split_example : Split 4 1 three_entries (pick 4 1 three_entries)
pick-Split_example = pick-Split 4 1 three_entries

take_jobs-Batches_example :
    Batches 4
      ((101 ∷ [], 7) ∷ [])
      fetched.queues
      (take_jobs (λ id. true) 4 ((101 ∷ [], 7) ∷ []) 30 fetched).0
take_jobs-Batches_example = take_jobs-Batches (λ id. true) 4 ((101 ∷ [], 7) ∷ []) 30 fetched

abbrev two_per_second : Windows
two_per_second = record {
  specs = record { limit = 2; window_ms = 1000 } ∷ [];
  sent = 0 ∷ 200 ∷ [];
  cooldown_until = some 900;
  next_slot = none;
}

abbrev no_gap : List WindowSpec → ℕ
no_gap specs = 0

third_granted : (acquire true no_gap 1100 two_per_second).0 ≡ Attempt.granted
unfolding acquire check_specs in_window prune
third_granted = refl

acquire-within_example :
    All (λ s. count_within s.window_ms 1100 (0 ∷ 200 ∷ 1100 ∷ []) ≤ s.limit) two_per_second.specs
acquire-within_example =
    acquire-within true no_gap 1100 two_per_second
      (omega arith, (omega arith, tt), (omega arith, tt, tt)) third_granted

acquire-panics_example : (acquire true no_gap 1100 two_per_second).0 ≢ Attempt.panics
acquire-panics_example = acquire-panics true no_gap 1100 two_per_second (omega arith, tt)

-- A limit of zero, which a header can declare: the limiter panics.
zero_limit_panics :
    (acquire true no_gap 0 (RateLimit.new (record { limit = 0; window_ms = 1000 } ∷ []))).0
    ≡ Attempt.panics
unfolding acquire check_specs in_window prune
zero_limit_panics = refl

abbrev one_match : NodeStats
one_match = record_node true 120000 Stats.new

one_match_size : length one_match.minutes ≡ 60
unfolding record_node advance Stats.clear_slots
one_match_size = refl

one_match_head : one_match.head_minute ≡ 2
unfolding record_node advance Stats.clear_slots
one_match_head = refl

advance-slot_example :
    slot (advance 5 one_match).minutes 2
    ≡ (if leb 2 one_match.head_minute then slot one_match.minutes 2 else no_requests)
advance-slot_example =
    advance-slot 5 2 one_match one_match_size (rw one_match_head (omega arith)) (omega arith)
      (omega arith)

record_node-slot_example : slot (record_node false 300000 one_match).minutes 2 ≡ (
    let kept = if leb 2 one_match.head_minute then slot one_match.minutes 2 else no_requests in
    if 2 == 300000 / minute_ms then add kept (one false) else kept)
record_node-slot_example =
    record_node-slot false 300000 2 one_match one_match_size (rw one_match_head (omega arith))
      (omega arith) (omega arith)

shutdown-Answered_example :
    All (λ e. (tx : ℕ) → e.1.responder ≡ some tx → Answered (shutdown fetched).sent tx) fetched.jobs
    × ((shutdown fetched).jobs ≡ [])
    × ((shutdown fetched).queues ≡ [])
    × ((shutdown fetched).shutdown ≡ true)
shutdown-Answered_example = shutdown-Answered fetched
