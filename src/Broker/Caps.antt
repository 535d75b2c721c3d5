-- ===== src/Broker/Caps.antt =====
-- Which jobs, and how many, `Broker::take_jobs` of crates/server/src/broker.rs gives a node.
use lol_crawler.Prelude.{
  ℕ, zero, suc, ◌-◌, ◌≤◌, ◌≡◌, ◌⊎◌, inl, inr, refl, sym, ap, ◌∙◌, subst, Bool, true, false, Option,
  none, some, List, [], ◌∷◌, ◌++◌, append_assoc, append-nil, if◌then◌else◌, ◌==◌, Bool-cases, arith,
  length, All,
}
use lol_crawler.Prelude.Maps.{String, str_eq, find}
use lol_crawler.Registry.{active_node_other_than}
use lol_crawler.Broker.{JobState, Queue, Broker, target_inflight_per_host}
use lol_crawler.Broker.Dispatch.{
  Job, Taking, cap_of, hand_out, lease_picked, take_hosts, pick, take_jobs,
}

-- The ids that a queue has for a node, and the entries that exclude it.
abbrev pub open_ids : ℕ → Queue → List ℕ
open_ids node_id [] = []
open_ids node_id ((id, none) ∷ q) = id ∷ open_ids node_id q
open_ids node_id ((id, some n) ∷ q) =
    if n == node_id then open_ids node_id q else id ∷ open_ids node_id q

abbrev pub excluded : ℕ → Queue → Queue
excluded node_id [] = []
excluded node_id ((id, none) ∷ q) = excluded node_id q
excluded node_id ((id, some n) ∷ q) =
    if n == node_id then (id, some n) ∷ excluded node_id q else excluded node_id q

-- The queue is cut in two. All that the front has for the node is given, and the entries of the
-- front that exclude it are left, before the back; `cap` are given at most, and there is a back only
-- where `cap` are given.
pub record Split (node_id cap : ℕ) (q : Queue) (got : List ℕ × Queue) : Type 0 where
  pub front : Queue
  pub back : Queue
  pub whole : q ≡ front ++ back
  pub given : got.0 ≡ open_ids node_id front
  pub kept : got.1 ≡ excluded node_id front ++ back
  pub few : length got.0 ≤ cap
  pub enough : (length got.0 ≡ cap) ⊎ (back ≡ [])

given_one :
    (node_id cap id : ℕ) (exclude : Option ℕ) (q : Queue) (got : List ℕ × Queue)
    → ((front : Queue) → open_ids node_id ((id, exclude) ∷ front) ≡ id ∷ open_ids node_id front)
    → ((front : Queue) → excluded node_id ((id, exclude) ∷ front) ≡ excluded node_id front)
    → Split node_id cap q got
    → Split node_id (suc cap) ((id, exclude) ∷ q) (id ∷ got.0, got.1)
given_one node_id cap id exclude q got opens excludes s = record {
  front = (id, exclude) ∷ s.front;
  back = s.back;
  whole = ap (λ r. (id, exclude) ∷ r) s.whole;
  given = ap (λ r. id ∷ r) s.given ∙ sym (opens s.front);
  kept = s.kept ∙ ap (λ r. r ++ s.back) (sym (excludes s.front));
  few = omega (arith, s.few);
  enough = elim s.enough [ inl e ↦ inl (ap suc e) | inr e ↦ inr e ];
}

-- Off a queue a node is given the entries of a front part that do not exclude it, in order, and as
-- many as its cap at most; the entries of the front that exclude it, and behind them the whole back
-- part, are left as they are and in order, and there is a back part only where the cap is reached.
pub pick-Split : (node_id cap : ℕ) (q : Queue) → Split node_id cap q (pick node_id cap q)
unfolding pick
pick-Split node_id zero q = record {
  front = [];
  back = q;
  whole = refl;
  given = refl;
  kept = refl;
  few = omega arith;
  enough = inl refl;
}
pick-Split node_id (suc cap) [] = record {
  front = [];
  back = [];
  whole = refl;
  given = refl;
  kept = refl;
  few = omega arith;
  enough = inr refl;
}
pick-Split node_id (suc cap) ((id, none) ∷ q) =
    given_one node_id cap id none q (pick node_id cap q) (λ r. refl) (λ r. refl)
      (pick-Split node_id cap q)
pick-Split node_id (suc cap) ((id, some n) ∷ q) = elim (Bool-cases (n == node_id)) [
  | inl t ↦
      let s = pick-Split node_id (suc cap) q in
      rw t (record {
        front = (id, some n) ∷ s.front;
        back = s.back;
        whole = ap (λ r. (id, some n) ∷ r) s.whole;
        given = rw t (s.given);
        kept = rw t (ap (λ r. (id, some n) ∷ r) s.kept);
        few = s.few;
        enough = s.enough;
      })
  | inr f ↦ rw f (
      given_one node_id cap id (some n) q (pick node_id cap q) (λ r. rw f refl) (λ r. rw f refl)
        (pick-Split node_id cap q))
]

abbrev pub Listed : ℕ → List ℕ → Type 0
Listed id [] = ⊥
Listed id (i ∷ ids) = (i ≡ id) ⊎ Listed id ids

-- The ids of a front part are among those of the whole.
Listed-open_ids :
    (id node_id : ℕ) (front back : Queue)
    → Listed id (open_ids node_id front)
    → Listed id (open_ids node_id (front ++ back))
Listed-open_ids id node_id [] back h = absurd h
Listed-open_ids id node_id ((i, none) ∷ front) back (inl e) = inl e
Listed-open_ids id node_id ((i, none) ∷ front) back (inr h) =
    inr (Listed-open_ids id node_id front back h)
Listed-open_ids id node_id ((i, some n) ∷ front) back h =
    by_test (n == node_id) (Listed-open_ids id node_id front back) h
  where
    by_test :
        (b : Bool)
        → (Listed id (open_ids node_id front) → Listed id (open_ids node_id (front ++ back)))
        → Listed id (if b then open_ids node_id front else i ∷ open_ids node_id front)
        → Listed id
            (if b then open_ids node_id (front ++ back) else i ∷ open_ids node_id (front ++ back))
    by_test true wider g = wider g
    by_test false wider (inl e) = inl e
    by_test false wider (inr g) = inr (wider g)

Split-Listed :
    (node_id cap : ℕ) (q : Queue) (id : ℕ)
    → Split node_id cap q (pick node_id cap q)
    → Listed id (pick node_id cap q).0
    → Listed id (open_ids node_id q)
Split-Listed node_id cap q id s h =
    subst (λ r. Listed id (open_ids node_id r)) (sym s.whole)
      (Listed-open_ids id node_id s.front s.back (subst (Listed id) s.given h))

-- What a node may be given for a host: eight, less what it holds already.
abbrev pub most : Option ℕ → ℕ
most none = 8
most (some held) = 8 - held

-- The jobs are a batch for each host's queue in turn, each of ids that the queue has for the node,
-- and no more of them than the host allows.
pub data Batches (node_id : ℕ) (pending : List (String × ℕ))
    : List (String × Queue) → List Job → Type 0 where
  done : Batches node_id pending [] []
  batch :
      (host : String) (q : Queue) (jobs rest : List Job) {queues : List (String × Queue)}
      {out : List Job}
      → All (λ (j : Job). Listed j.id (open_ids node_id q)) jobs
      → length jobs ≤ most (find str_eq host pending)
      → out ≡ jobs ++ rest
      → Batches node_id pending queues rest
      → Batches node_id pending ((host, q) ∷ queues) out

-- Jobs that are put out behind others.
record Adds (ids : List ℕ) (before after : List Job) : Type 0 where
  jobs : List Job
  behind : after ≡ before ++ jobs
  few : length jobs ≤ length ids
  listed : All (λ (j : Job). Listed j.id ids) jobs

All-imp : (P Q : Job → Type 0) (jobs : List Job) → ((j : Job) → P j → Q j) → All P jobs → All Q jobs
All-imp P Q [] f h = tt
All-imp P Q (j ∷ jobs) f h = (f j h.0, All-imp P Q jobs f h.1)

module _ (roll : ℕ → Bool) (audit_possible : Bool) (node_id now : ℕ) where
  lease_picked-Adds :
      (ids : List ℕ) (t : Taking)
      → Adds ids t.out (lease_picked roll audit_possible node_id now ids t).out
  unfolding lease_picked
  lease_picked-Adds [] t = record {
    jobs = [];
    behind = sym (append-nil t.out);
    few = omega arith;
    listed = tt;
  }
  lease_picked-Adds (id ∷ ids) t =
      by_job (find ◌==◌ id t.jobs) (
        lease_picked-Adds ids (hand_out roll audit_possible node_id now id (find ◌==◌ id t.jobs) t))
    where
      by_job :
          (o : Option JobState)
          → Adds ids
              (hand_out roll audit_possible node_id now id o t).out
              (lease_picked roll audit_possible node_id now ids
                (hand_out roll audit_possible node_id now id o t)).out
          → Adds
              (id ∷ ids)
              t.out
              (lease_picked roll audit_possible node_id now ids
                (hand_out roll audit_possible node_id now id o t)).out
      by_job none a = record {
        jobs = a.jobs;
        behind = a.behind;
        few = omega (arith, a.few);
        listed = All-imp _ _ a.jobs (λ j h. inr h) a.listed;
      }
      by_job (some job) a = record {
        jobs = _ ∷ a.jobs;
        behind = a.behind ∙ append_assoc t.out _ a.jobs;
        few = omega (arith, a.few);
        listed = (inl refl, All-imp _ _ a.jobs (λ j h. inr h) a.listed);
      }

  cap_of-most :
      (pending : List (String × ℕ)) (host : String)
      → cap_of pending host ≡ most (find str_eq host pending)
  cap_of-most pending host = by_held (find str_eq host pending)
    where
      by_held :
          (o : Option ℕ)
          → elim o [ some held ↦ target_inflight_per_host - held | none ↦ target_inflight_per_host ]
            ≡ most o
      by_held none = refl
      by_held (some held) = refl

  take_hosts-Batches :
      (pending : List (String × ℕ)) (queues : List (String × Queue)) (t : Taking)
      → (out : List Job) × ((take_hosts roll audit_possible node_id now pending queues t).1.out
          ≡ t.out ++ out)
        × Batches node_id pending queues out
  unfolding take_hosts
  take_hosts-Batches pending [] t = ([], sym (append-nil t.out), Batches.done)
  take_hosts-Batches pending ((host, q) ∷ queues) t =
      let s = pick-Split node_id (cap_of pending host) q in
      let a = lease_picked-Adds (pick node_id (cap_of pending host) q).0 t in
      let (rest, e, batches) =
        take_hosts-Batches pending queues (
          lease_picked roll audit_possible node_id now (pick node_id (cap_of pending host) q).0
            t) in
      (
        a.jobs ++ rest,
        e ∙ ap (λ l. l ++ rest) a.behind ∙ append_assoc t.out a.jobs rest,
        Batches.batch host q a.jobs rest
            (All-imp _ _ a.jobs (λ j h. Split-Listed node_id (cap_of pending host) q j.id s h)
              a.listed)
            (omega (arith, a.few, s.few, cap_of-most pending host)) refl batches,
      )

-- What a node is given is a batch of jobs for each host's queue in turn: only jobs whose entries in
-- that queue do not exclude the node, and eight at most, less what the node already holds for that
-- host.
pub take_jobs-Batches :
    (roll : ℕ → Bool) (node_id : ℕ) (pending : List (String × ℕ)) (now : ℕ) (b : Broker)
    → Batches node_id pending b.queues (take_jobs roll node_id pending now b).0
unfolding take_jobs
take_jobs-Batches roll node_id pending now b =
    let (out, e, batches) =
      take_hosts-Batches roll (active_node_other_than now node_id b.registry) node_id now pending
        b.queues (record { jobs = b.jobs; out = []; new_twins = [] }) in
    rw e batches
