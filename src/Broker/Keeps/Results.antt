-- ===== src/Broker/Keeps/Results.antt =====
-- `release`, `abandon` and `complete` keep the invariant of the jobs.
use lol_crawler.Prelude.{
  ℕ, ◌+◌, ◌≡◌, inl, inr, refl, ap, Bool, true, false, Option, none, some, ◌==◌, leb, Bool-cases,
  Option-cases, arith,
}
use lol_crawler.Prelude.Maps.{String, find, adjust, remove}
use lol_crawler.Prelude.Maps.Laws.{find-adjust_self, remove-adjust}
use lol_crawler.Prelude.Result.{err}
use lol_crawler.Broker.{
  FetchError, FetchResult, JobState, AuditBody, AuditPair, Broker, send, max_attempts,
}
use lol_crawler.Broker.Results.{
  JobResult, JobOutcome, drop_audit, abandon, unleased, release_job, release, accepted, judge,
  judge_pair, finish_audit_if_ready, audit_body, deliver, fail, settle, complete, or_text,
  failed_text, lease_expired_text, body_of, result_of,
}
use lol_crawler.Broker.Invariant.{Settled, IsBroker, Settled-remove, Settled-adjust, Settled-settle}

IsBroker-send :
    (tx : Option ℕ) (result : FetchResult) (b : Broker)
    → Settled b.next_id b.jobs (send tx result b).sent
    → IsBroker (send tx result b)
IsBroker-send none result b h = h
IsBroker-send (some tx) result b h = h

drop_audit-IsBroker :
    (id : ℕ) (is_twin : Bool) (twin_id : Option ℕ) (b : Broker)
    → IsBroker b
    → IsBroker (drop_audit id is_twin twin_id b)
drop_audit-IsBroker id true twin_id b h = h
drop_audit-IsBroker id false none b h = h
drop_audit-IsBroker id false (some twin_id) b h = Settled-remove b.next_id b.jobs b.sent twin_id h

-- The job is taken out, and its fetch answered.
settle_job-IsBroker :
    (id : ℕ) (job : JobState) (result : FetchResult) (b : Broker)
    → find ◌==◌ id b.jobs ≡ some job
    → IsBroker b
    → IsBroker (send job.responder result (record b { jobs = remove ◌==◌ id b.jobs }))
settle_job-IsBroker id job result b found h =
    let b' : Broker = record b { jobs = remove ◌==◌ id b.jobs } in
    IsBroker-send job.responder result b' (Settled-settle b.next_id id b.jobs job result b' found h)

-- A job is abandoned behind a last change to it.
abandon-IsBroker :
    (id : ℕ) (why : String) (f : JobState → JobState) (b : Broker) (job : JobState)
    → find ◌==◌ id b.jobs ≡ some job
    → (f job).responder ≡ job.responder
    → IsBroker b
    → IsBroker (abandon id why (record b { jobs = adjust ◌==◌ id f b.jobs }))
unfolding abandon
abandon-IsBroker id why f b job found same h = rw (find-adjust_self id f b.jobs found) (
    drop_audit-IsBroker id (f job).is_twin (f job).twin_id _ (
      rw (remove-adjust id f b.jobs, same)
        (settle_job-IsBroker id job (err (FetchError.abandoned why (f job).path)) b found h)))

same_job : {a b : JobState} (o : Option JobState) → o ≡ some a → o ≡ some b → a ≡ b
same_job none e k = cc
same_job (some j) e k = ground arith

release_found :
    (id : ℕ) (count_attempt : Bool) (job : JobState) (b : Broker)
    → find ◌==◌ id b.jobs ≡ some job
    → IsBroker b
    → IsBroker (release_job id count_attempt (some job) b)
release_found id false job b found h =
    Settled-adjust b.next_id b.jobs b.sent id (unleased false)
      (λ j e p. record { fresh = p.fresh; owned = p.owned; tries = p.tries }) h
release_found id true job b found h = elim (Bool-cases (leb max_attempts (job.attempts + 1))) [
  | inl t ↦ rw t (abandon-IsBroker id lease_expired_text (unleased true) b job found refl h)
  | inr f ↦ rw f (
      Settled-adjust b.next_id b.jobs b.sent id (unleased true)
        (λ j e p.
          let same : j.attempts ≡ job.attempts = ap (λ x. x.attempts) (same_job _ e found) in
          record { fresh = p.fresh; owned = p.owned; tries = ground arith })
        h)
]

pub release-IsBroker :
    (id : ℕ) (count_attempt : Bool) (b : Broker)
    → IsBroker b
    → IsBroker (release id count_attempt b)
unfolding release
release-IsBroker id count_attempt b h = elim (Option-cases (find ◌==◌ id b.jobs)) [
  | inl e ↦ rw e h
  | inr (job, e) ↦ rw e (release_found id count_attempt job b e h)
]

module _ {Json : Type 0} (parse_json : String → Option Json) (same_json : Json → Json → Bool) where
  judge-IsBroker :
      (twin_id : ℕ) (pair : AuditPair) (x y : Option AuditBody) (b : Broker)
      → IsBroker b
      → IsBroker (judge parse_json same_json twin_id pair x y b)
  judge-IsBroker twin_id pair (some x) (some y) b h = h
  judge-IsBroker twin_id pair (some x) none b h = h
  judge-IsBroker twin_id pair none y b h = h

  judge_pair-IsBroker :
      (twin_id : ℕ) (o : Option AuditPair) (b : Broker)
      → IsBroker b
      → IsBroker (judge_pair parse_json same_json twin_id o b)
  judge_pair-IsBroker twin_id none b h = h
  judge_pair-IsBroker twin_id (some pair) b h =
      judge-IsBroker twin_id pair pair.primary pair.twin b h

  audit_body-IsBroker :
      (node_id id : ℕ) (body : AuditBody) (is_twin : Bool) (twin_id : Option ℕ) (b : Broker)
      → IsBroker b
      → IsBroker (audit_body parse_json same_json node_id id body is_twin twin_id b)
  unfolding finish_audit_if_ready
  audit_body-IsBroker node_id id body true twin_id b h = judge_pair-IsBroker id _ _ h
  audit_body-IsBroker node_id id body false none b h = h
  audit_body-IsBroker node_id id body false (some twin_id) b h = judge_pair-IsBroker twin_id _ _ h

  deliver-IsBroker :
      (node_id now_unix_ms : ℕ) (res : JobResult) (job : JobState) (b : Broker)
      → find ◌==◌ res.id b.jobs ≡ some job
      → IsBroker b
      → IsBroker (deliver parse_json same_json node_id now_unix_ms res job b)
  unfolding deliver
  deliver-IsBroker node_id now_unix_ms res job b found h =
      audit_body-IsBroker node_id res.id (body_of res) job.is_twin job.twin_id _
        (settle_job-IsBroker res.id job (result_of (body_of res)) b found h)

  fail-IsBroker :
      (res : JobResult) (job : JobState) (b : Broker)
      → find ◌==◌ res.id b.jobs ≡ some job
      → IsBroker b
      → IsBroker (fail parse_json same_json res job b)
  unfolding fail
  fail-IsBroker res job b found h = elim (Bool-cases (leb max_attempts (job.attempts + 1))) [
    | inl t ↦
        rw t (abandon-IsBroker res.id (or_text res.error failed_text) again b job found refl h)
    | inr f ↦ rw f (
        release-IsBroker res.id false _ (
          Settled-adjust b.next_id b.jobs b.sent res.id again
            (λ j e p.
              let same : j.attempts ≡ job.attempts = ap (λ x. x.attempts) (same_job _ e found) in
              record { fresh = p.fresh; owned = p.owned; tries = ground arith })
            h))
  ]
    where
      again : JobState → JobState
      again j = record j { attempts = j.attempts + 1 }

  settle-IsBroker :
      (node_id now_unix_ms : ℕ) (res : JobResult) (job : JobState) (outcome : JobOutcome)
      (b : Broker)
      → find ◌==◌ res.id b.jobs ≡ some job
      → IsBroker b
      → IsBroker (settle parse_json same_json node_id now_unix_ms res job outcome b)
  settle-IsBroker node_id now res job JobOutcome.ok b found h =
      deliver-IsBroker node_id now res job b found h
  settle-IsBroker node_id now res job JobOutcome.not_found b found h =
      deliver-IsBroker node_id now res job b found h
  settle-IsBroker node_id now res job JobOutcome.key_rejected b found h =
      release-IsBroker res.id false _ h
  settle-IsBroker node_id now res job JobOutcome.failed b found h = fail-IsBroker res job b found h

  pub complete-IsBroker :
      (node_id now_unix_ms : ℕ) (res : JobResult) (b : Broker)
      → IsBroker b
      → IsBroker (complete parse_json same_json node_id now_unix_ms res b)
  unfolding complete
  complete-IsBroker node_id now_unix_ms res b h = elim (Option-cases (find ◌==◌ res.id b.jobs)) [
    | inl e ↦ rw e h
    | inr (job, e) ↦ rw e (elim (Bool-cases (accepted node_id job.lease)) [
      | inl t ↦ rw t (settle-IsBroker node_id now_unix_ms res job res.outcome b e h)
      | inr f ↦ rw f h
    ])
  ]
