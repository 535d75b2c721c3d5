-- ===== src/Broker/Results.antt =====
-- `Broker::complete` of crates/server/src/broker.rs with `release`, `abandon` and
-- `finish_audit_if_ready`. serde_json is a parameter: its parser of values and their equality.
use lol_crawler.Prelude.{
  ℕ, ◌+◌, Bool, true, false, ◌&&◌, ◌||◌, Option, none, some, [], ◌∷◌, if◌then◌else◌, ◌==◌, leb,
}
use lol_crawler.Prelude.Maps.{String, str_eq, find, adjust, remove}
use lol_crawler.Prelude.Result.{Result, err}
use lol_crawler.Registry.{AuditVerdict, job_completed, set_key_bad, audit_result}
use lol_crawler.Stats.{record_request}
use lol_crawler.Broker.{
  FetchError, FetchResult, JobState, AuditBody, AuditPair, Broker, push_back, send, max_attempts,
}

pub data JobOutcome : Type 0 where
  ok not_found key_rejected failed : JobOutcome

pub record JobResult : Type 0 where
  pub id : ℕ
  pub outcome : JobOutcome
  pub body : Option String
  pub error : Option String

-- "match-v5.match" and "match-v5.timeline".
abbrev pub match_v5_match : String
match_v5_match = 109 ∷ 97 ∷ 116 ∷ 99 ∷ 104 ∷ 45 ∷ 118 ∷ 53 ∷ 46 ∷ 109 ∷ 97 ∷ 116 ∷ 99 ∷ 104 ∷ []

abbrev pub match_v5_timeline : String
match_v5_timeline =
    109 ∷ 97 ∷ 116 ∷ 99 ∷ 104 ∷ 45 ∷ 118 ∷ 53 ∷ 46 ∷ 116 ∷ 105 ∷ 109 ∷ 101 ∷ 108 ∷ 105 ∷ 110 ∷ 101
    ∷ []

-- "failed" and "lease expired too many times".
abbrev pub failed_text : String
failed_text = 102 ∷ 97 ∷ 105 ∷ 108 ∷ 101 ∷ 100 ∷ []

abbrev pub lease_expired_text : String
lease_expired_text =
    108 ∷ 101 ∷ 97 ∷ 115 ∷ 101 ∷ 32 ∷ 101 ∷ 120 ∷ 112 ∷ 105 ∷ 114 ∷ 101 ∷ 100 ∷ 32 ∷ 116 ∷ 111 ∷ 111
    ∷ 32 ∷ 109 ∷ 97 ∷ 110 ∷ 121 ∷ 32 ∷ 116 ∷ 105 ∷ 109 ∷ 101 ∷ 115 ∷ []

-- Membership in `IMMUTABLE_METHODS`.
abbrev pub is_immutable : String → Bool
is_immutable method = str_eq method match_v5_match || str_eq method match_v5_timeline

abbrev pub or_text : Option String → String → String
or_text none text = text
or_text (some s) text = s

-- The audit of a job: a twin's own, or the one that a primary's twin is keyed by.
abbrev pub drop_audit : ℕ → Bool → Option ℕ → Broker → Broker
drop_audit id true twin_id b = record b { audits = remove ◌==◌ id b.audits }
drop_audit id false none b = b
drop_audit id false (some twin_id) b = record b {
  audits = remove ◌==◌ twin_id b.audits;
  jobs = remove ◌==◌ twin_id b.jobs;
}

abbrev pub abandon_job : ℕ → String → Option JobState → Broker → Broker
abandon_job id why none b = b
abandon_job id why (some job) b = drop_audit id job.is_twin job.twin_id (
    send job.responder (err (FetchError.abandoned why job.path))
      (record b { jobs = remove ◌==◌ id b.jobs }))

unfoldable pub abandon : ℕ → String → Broker → Broker
abandon id why b = abandon_job id why (find ◌==◌ id b.jobs) b

abbrev pub unleased : Bool → JobState → JobState
unleased count_attempt job = record job {
  lease = none;
  attempts = if count_attempt then job.attempts + 1 else job.attempts;
}

abbrev pub release_job : ℕ → Bool → Option JobState → Broker → Broker
release_job id count_attempt none b = b
release_job id count_attempt (some job) b =
    let b1 = record b { jobs = adjust ◌==◌ id (unleased count_attempt) b.jobs } in
    if count_attempt && leb max_attempts (job.attempts + 1)
    then abandon id lease_expired_text b1
    else (record b1 { queues = push_back job.host (id, job.exclude_node) b1.queues })

unfoldable pub release : ℕ → Bool → Broker → Broker
unfolding abandon
release id count_attempt b = release_job id count_attempt (find ◌==◌ id b.jobs) b

-- The result is accepted from the node that holds the lease, or from any when there is none.
abbrev pub accepted : ℕ → Option (ℕ × ℕ) → Bool
accepted node_id none = true
accepted node_id (some (n, until)) = n == node_id

abbrev pub is_match_body : JobState → JobOutcome → Bool
is_match_body job JobOutcome.ok = str_eq job.method match_v5_match
is_match_body job _ = false

abbrev pub body_of : JobResult → AuditBody
body_of res = elim res.outcome [
  | JobOutcome.ok ↦ AuditBody.found_body (or_text res.body [])
  | _ ↦ AuditBody.not_found
]

abbrev pub result_of : AuditBody → FetchResult
result_of (AuditBody.found_body b) = Result.ok (some b)
result_of AuditBody.not_found = Result.ok none

module _ {Json : Type 0} (parse_json : String → Option Json) (same_json : Json → Json → Bool) where
  abbrev both_json : Option Json → Option Json → Bool → Bool
  both_json (some x) (some y) otherwise = same_json x y
  both_json _ _ otherwise = otherwise

  unfoldable pub json_equal : String → String → Bool
  json_equal a b = both_json (parse_json a) (parse_json b) (str_eq a b)

  abbrev pub bodies_equal : AuditBody → AuditBody → Bool
  bodies_equal AuditBody.not_found AuditBody.not_found = true
  bodies_equal (AuditBody.found_body x) (AuditBody.found_body y) = json_equal x y
  bodies_equal _ _ = false

  unfoldable pub verdict_of : String → AuditBody → AuditBody → AuditVerdict
  unfolding json_equal
  verdict_of method a b =
      if bodies_equal a b
      then AuditVerdict.pass
      else (if is_immutable method then AuditVerdict.hard_fail else AuditVerdict.soft_fail)

  abbrev pub twin_node_of : Option ℕ → ℕ
  twin_node_of none = 0
  twin_node_of (some n) = n

  abbrev pub judge : ℕ → AuditPair → Option AuditBody → Option AuditBody → Broker → Broker
  judge twin_id pair (some a) (some b) broker = record broker {
    audits = remove ◌==◌ twin_id broker.audits;
    registry =
        audit_result pair.primary_node (twin_node_of pair.twin_node) (verdict_of pair.method a b)
          broker.registry;
  }
  judge twin_id pair _ _ broker = broker

  abbrev pub judge_pair : ℕ → Option AuditPair → Broker → Broker
  judge_pair twin_id none b = b
  judge_pair twin_id (some pair) b = judge twin_id pair pair.primary pair.twin b

  unfoldable pub finish_audit_if_ready : ℕ → Broker → Broker
  unfolding verdict_of
  finish_audit_if_ready twin_id b = judge_pair twin_id (find ◌==◌ twin_id b.audits) b

  -- The body goes to the audit of the job, if it has one.
  abbrev pub audit_body : ℕ → ℕ → AuditBody → Bool → Option ℕ → Broker → Broker
  audit_body node_id id body true twin_id b = finish_audit_if_ready id (record b {
    audits =
        adjust ◌==◌ id (λ pair. record pair { twin_node = some node_id; twin = some body })
          b.audits;
  })
  audit_body node_id id body false none b = b
  audit_body node_id id body false (some twin_id) b = finish_audit_if_ready twin_id (record b {
    audits = adjust ◌==◌ twin_id (λ pair. record pair { primary = some body }) b.audits;
  })

  unfoldable pub deliver : ℕ → ℕ → JobResult → JobState → Broker → Broker
  unfolding finish_audit_if_ready
  deliver node_id now_unix_ms res job b =
      let body = body_of res in
      let b1 =
        send job.responder (result_of body) (record b { jobs = remove ◌==◌ res.id b.jobs }) in
      audit_body node_id res.id body job.is_twin job.twin_id (record b1 {
        registry = job_completed node_id b1.registry;
        stats = record_request node_id (is_match_body job res.outcome) now_unix_ms b1.stats;
      })

  -- A node reports that it gave up.
  unfoldable pub fail : JobResult → JobState → Broker → Broker
  unfolding release abandon
  fail res job b =
      let b1 = record b {
        jobs = adjust ◌==◌ res.id (λ j. record j { attempts = j.attempts + 1 }) b.jobs;
      } in
      if leb max_attempts (job.attempts + 1)
      then abandon res.id (or_text res.error failed_text) b1
      else release res.id false b1

  abbrev pub settle : ℕ → ℕ → JobResult → JobState → JobOutcome → Broker → Broker
  settle node_id now_unix_ms res job JobOutcome.ok b = deliver node_id now_unix_ms res job b
  settle node_id now_unix_ms res job JobOutcome.not_found b = deliver node_id now_unix_ms res job b
  settle node_id now_unix_ms res job JobOutcome.key_rejected b =
      release res.id false (record b { registry = set_key_bad node_id true b.registry })
  settle node_id now_unix_ms res job JobOutcome.failed b = fail res job b

  abbrev pub complete_job : ℕ → ℕ → JobResult → Option JobState → Broker → Broker
  complete_job node_id now_unix_ms res none b = b
  complete_job node_id now_unix_ms res (some job) b =
      if accepted node_id job.lease then settle node_id now_unix_ms res job res.outcome b else b

  unfoldable pub complete : ℕ → ℕ → JobResult → Broker → Broker
  unfolding deliver fail release
  complete node_id now_unix_ms res b =
      complete_job node_id now_unix_ms res (find ◌==◌ res.id b.jobs) b
