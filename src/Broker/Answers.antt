-- ===== src/Broker/Answers.antt =====
-- What `Broker::complete` of crates/server/src/broker.rs does with a result.
use lol_crawler.Prelude.{
  ℕ, ◌+◌, ◌≡◌, ◌≢◌, ◌⊎◌, inl, inr, refl, sym, ap, ◌∙◌, Bool, true, false, Option, none, some, List,
  [], ◌∷◌, ◌++◌, leb, ◌==◌, ==_self, if◌then◌else◌, append-nil, Option-cases, arith,
}
use lol_crawler.Prelude.Maps.{String, find, adjust, remove}
use lol_crawler.Prelude.Maps.Laws.{find-remove_self, find-remove-none, find-adjust_self}
use lol_crawler.Prelude.Result.{ok, err}
use lol_crawler.Registry.{set_key_bad}
use lol_crawler.Broker.{
  FetchError, FetchResult, JobState, AuditBody, AuditPair, Queue, Broker, push_back, max_attempts,
}
use lol_crawler.Broker.Results.{
  JobResult, JobOutcome, failed_text, or_text, drop_audit, abandon, unleased, release, accepted,
  judge, judge_pair, finish_audit_if_ready, audit_body, deliver, fail, settle, complete, body_of,
  result_of,
}

-- What a waiting fetch is told of a result, if anything. A missing body is empty, and the sixth
-- failure is the last.
abbrev last_failure : Bool → Option String → String → Option FetchResult
last_failure false error path = none
last_failure true none path = some (err (FetchError.abandoned failed_text path))
last_failure true (some why) path = some (err (FetchError.abandoned why path))

abbrev pub told : JobOutcome → Option String → Option String → JobState → Option FetchResult
told JobOutcome.ok (some body) error job = some (ok (some body))
told JobOutcome.ok none error job = some (ok (some []))
told JobOutcome.not_found body error job = some (ok none)
told JobOutcome.key_rejected body error job = none
told JobOutcome.failed body error job = last_failure (leb 6 (job.attempts + 1)) error job.path

-- What becomes of the job: it is gone, or it waits for a node again.
abbrev pub left : JobOutcome → JobState → Option JobState
left JobOutcome.ok job = none
left JobOutcome.not_found job = none
left JobOutcome.key_rejected job = some (record job { lease = none })
left JobOutcome.failed job =
    if leb 6 (job.attempts + 1)
    then none
    else some (record job { lease = none; attempts = job.attempts + 1 })

-- A job that waits again stands at the end of its host's queue, with the node it excludes.
abbrev pub waiting : ℕ → JobState → Option JobState → List (String × Queue) → List (String × Queue)
waiting id job none queues = queues
waiting id job (some again) queues = push_back job.host (id, job.exclude_node) queues

abbrev pub answers : ℕ → Option FetchResult → List (ℕ × FetchResult)
answers tx none = []
answers tx (some result) = (tx, result) ∷ []

-- The lease of another node: a result from this one comes too late.
abbrev pub IsElsewhere : ℕ → Option (ℕ × ℕ) → Type 0
IsElsewhere node_id none = ⊥
IsElsewhere node_id (some (holder, until)) = holder ≢ node_id

module _ {Json : Type 0} (parse_json : String → Option Json) (same_json : Json → Json → Bool) where
  judge_pair-sent :
      (twin_id : ℕ) (o : Option AuditPair) (b : Broker)
      → ((judge_pair parse_json same_json twin_id o b).sent ≡ b.sent)
        × ((judge_pair parse_json same_json twin_id o b).jobs ≡ b.jobs)
        × ((judge_pair parse_json same_json twin_id o b).queues ≡ b.queues)
  judge_pair-sent twin_id none b = (refl, refl, refl)
  judge_pair-sent twin_id (some pair) b = here pair.primary pair.twin
    where
      here :
          (x y : Option AuditBody)
          → ((judge parse_json same_json twin_id pair x y b).sent ≡ b.sent)
            × ((judge parse_json same_json twin_id pair x y b).jobs ≡ b.jobs)
            × ((judge parse_json same_json twin_id pair x y b).queues ≡ b.queues)
      here (some x) (some y) = (refl, refl, refl)
      here (some x) none = (refl, refl, refl)
      here none y = (refl, refl, refl)

  audit_body-sent :
      (node_id id : ℕ) (body : AuditBody) (is_twin : Bool) (twin_id : Option ℕ) (b : Broker)
      → ((audit_body parse_json same_json node_id id body is_twin twin_id b).sent ≡ b.sent)
        × ((audit_body parse_json same_json node_id id body is_twin twin_id b).jobs ≡ b.jobs)
        × ((audit_body parse_json same_json node_id id body is_twin twin_id b).queues ≡ b.queues)
  unfolding finish_audit_if_ready
  audit_body-sent node_id id body true twin_id b = judge_pair-sent id _ _
  audit_body-sent node_id id body false none b = (refl, refl, refl)
  audit_body-sent node_id id body false (some twin_id) b = judge_pair-sent twin_id _ _

  -- A body or its absence is told, and the job is gone.
  deliver-answers :
      (node_id now_unix_ms : ℕ) (res : JobResult) (job : JobState) (tx : ℕ) (b : Broker)
      → job.responder ≡ some tx
      → let b' = deliver parse_json same_json node_id now_unix_ms res job b in
        (b'.sent ≡ b.sent ++ ((tx, result_of (body_of res)) ∷ []))
        × (find ◌==◌ res.id b'.jobs ≡ none)
        × (b'.queues ≡ b.queues)
  unfolding deliver
  deliver-answers node_id now_unix_ms res job tx b resp =
      let (s, j, q) = audit_body-sent node_id res.id (body_of res) job.is_twin job.twin_id _ in
      (
        s ∙ rw resp refl,
        ap (find ◌==◌ res.id) j ∙ rw resp (find-remove_self res.id b.jobs),
        q ∙ rw resp refl,
      )

  -- An abandoned job is gone, and its fetch is told why.
  abandon-answers :
      (id : ℕ) (why : String) (job : JobState) (tx : ℕ) (b : Broker)
      → find ◌==◌ id b.jobs ≡ some job
      → job.responder ≡ some tx
      → ((abandon id why b).sent ≡ b.sent ++ ((tx, err (FetchError.abandoned why job.path)) ∷ []))
        × (find ◌==◌ id (abandon id why b).jobs ≡ none)
        × ((abandon id why b).queues ≡ b.queues)
  unfolding abandon
  abandon-answers id why job tx b found resp = rw found (rw resp (dropped job.is_twin job.twin_id))
    where
      gone : Broker
      gone = record b {
        jobs = remove ◌==◌ id b.jobs;
        sent = b.sent ++ ((tx, err (FetchError.abandoned why job.path)) ∷ []);
      }

      dropped :
          (is_twin : Bool) (twin_id : Option ℕ)
          → ((drop_audit id is_twin twin_id gone).sent ≡ gone.sent)
            × (find ◌==◌ id (drop_audit id is_twin twin_id gone).jobs ≡ none)
            × ((drop_audit id is_twin twin_id gone).queues ≡ b.queues)
      dropped true twin_id = (refl, find-remove_self id b.jobs, refl)
      dropped false none = (refl, find-remove_self id b.jobs, refl)
      dropped false (some t) =
          (refl, find-remove-none id t (remove ◌==◌ id b.jobs) (find-remove_self id b.jobs), refl)

  -- A job that is released waits again.
  release-answers :
      (id : ℕ) (job : JobState) (b : Broker)
      → find ◌==◌ id b.jobs ≡ some job
      → ((release id false b).sent ≡ b.sent)
        × (find ◌==◌ id (release id false b).jobs ≡ some (record job { lease = none }))
        × ((release id false b).queues ≡ push_back job.host (id, job.exclude_node) b.queues)
  unfolding release
  release-answers id job b found =
      rw found (refl, find-adjust_self id (unleased false) b.jobs found, refl)

  -- A result of a job that no node holds, or this one, whose fetch waits: a body is given to the
  -- fetch, an empty one where it is missing, or the absence of one (404), and the job is gone; a
  -- rejected key and a failure before the sixth, which is counted, tell the fetch nothing, take the
  -- lease off the job and put it at the end of its host's queue; the sixth failure tells the fetch
  -- why, and the job is gone. Otherwise the queues stay as they are.
  pub complete-answers :
      (node_id now_unix_ms : ℕ) (res : JobResult) (job : JobState) (tx : ℕ) (b : Broker)
      → find ◌==◌ res.id b.jobs ≡ some job
      → (job.lease ≡ none) ⊎ ((until : ℕ) × (job.lease ≡ some (node_id, until)))
      → job.responder ≡ some tx
      → ((complete parse_json same_json node_id now_unix_ms res b).sent
          ≡ b.sent ++ answers tx (told res.outcome res.body res.error job))
        × (find ◌==◌ res.id (complete parse_json same_json node_id now_unix_ms res b).jobs
            ≡ left res.outcome job)
        × ((complete parse_json same_json node_id now_unix_ms res b).queues
            ≡ waiting res.id job (left res.outcome job) b.queues)
  unfolding complete fail
  complete-answers node_id now_unix_ms res job tx b found held resp =
      rw found (rw (acc held) (by_outcome res.outcome refl))
    where
      acc :
          (job.lease ≡ none) ⊎ ((until : ℕ) × (job.lease ≡ some (node_id, until)))
          → accepted node_id job.lease ≡ true
      acc (inl e) = rw e refl
      acc (inr (until, e)) = rw e (==_self node_id)

      counted : Broker
      counted = record b {
        jobs = adjust ◌==◌ res.id (λ j. record j { attempts = j.attempts + 1 }) b.jobs;
      }

      counted_job : JobState
      counted_job = record job { attempts = job.attempts + 1 }

      counted_found : find ◌==◌ res.id counted.jobs ≡ some counted_job
      counted_found =
          find-adjust_self res.id (λ j. record j { attempts = j.attempts + 1 }) b.jobs found

      body_told :
          (o : Option String)
          → answers tx (told JobOutcome.ok o res.error job)
            ≡ (tx, result_of (AuditBody.found_body (or_text o []))) ∷ []
      body_told none = refl
      body_told (some s) = refl

      why_told :
          (o : Option String)
          → answers tx (last_failure true o job.path)
            ≡ (tx, err (FetchError.abandoned (or_text o failed_text) job.path)) ∷ []
      why_told none = refl
      why_told (some s) = refl

      failed_told :
          (last : Bool)
          → let b' =
              if last
              then abandon res.id (or_text res.error failed_text) counted
              else release res.id false counted in
            (b'.sent ≡ b.sent ++ answers tx (last_failure last res.error job.path))
            × (find ◌==◌ res.id b'.jobs ≡ (
                if last
                then none
                else some (record job { lease = none; attempts = job.attempts + 1 })))
            × (b'.queues
                ≡ waiting res.id job
                    (if last
                      then none
                      else some (record job { lease = none; attempts = job.attempts + 1 }))
                    b.queues)
      failed_told true =
          let (s, j, q) =
            abandon-answers res.id (or_text res.error failed_text) counted_job tx counted
              counted_found resp in
          (s ∙ ap (λ l. b.sent ++ l) (sym (why_told res.error)), j, q)
      failed_told false =
          let (s, j, q) = release-answers res.id counted_job counted counted_found in
          (s ∙ sym (append-nil b.sent), j, q)

      by_outcome :
          (outcome : JobOutcome)
          → res.outcome ≡ outcome
          → let b' = settle parse_json same_json node_id now_unix_ms res job outcome b in
            (b'.sent ≡ b.sent ++ answers tx (told outcome res.body res.error job))
            × (find ◌==◌ res.id b'.jobs ≡ left outcome job)
            × (b'.queues ≡ waiting res.id job (left outcome job) b.queues)
      by_outcome JobOutcome.ok e =
          let (s, j, q) = deliver-answers node_id now_unix_ms res job tx b resp in
          (s ∙ rw e (ap (λ l. b.sent ++ l) (sym (body_told res.body))), j, q)
      by_outcome JobOutcome.not_found e =
          let (s, j, q) = deliver-answers node_id now_unix_ms res job tx b resp in
          (s ∙ rw e refl, j, q)
      by_outcome JobOutcome.key_rejected e =
          let (s, j, q) =
            release-answers res.id job (record b { registry = set_key_bad node_id true b.registry })
              found in
          (s ∙ sym (append-nil b.sent), j, q)
      by_outcome JobOutcome.failed e = failed_told (leb max_attempts (job.attempts + 1))

-- A result for a job that is not in the map, or that another node holds, changes nothing.
pub complete-stale :
    {Json : Type 0} (parse_json : String → Option Json) (same_json : Json → Json → Bool)
    (node_id now_unix_ms : ℕ) (res : JobResult) (b : Broker)
    → ((job : JobState) → find ◌==◌ res.id b.jobs ≡ some job → IsElsewhere node_id job.lease)
    → complete parse_json same_json node_id now_unix_ms res b ≡ b
unfolding complete
complete-stale parse_json same_json node_id now_unix_ms res b stale =
    elim (Option-cases (find ◌==◌ res.id b.jobs)) [
      | inl e ↦ rw e refl
      | inr (job, e) ↦ rw e (rw (refused job.lease (stale job e)) refl)
    ]
  where
    refused : (lease : Option (ℕ × ℕ)) → IsElsewhere node_id lease → accepted node_id lease ≡ false
    refused none h = absurd h
    refused (some (holder, until)) h = ground (arith, h)
