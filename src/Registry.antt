-- ===== src/Registry.antt =====
-- `Registry` of crates/server/src/registry.rs: the tokens, and for each node its counters. An
-- `Instant` is a number of milliseconds; the SHA-256 of a token is a parameter. The write lock
-- makes each operation one step.
use lol_crawler.Prelude.{
  ℕ, ◌+◌, ◌-◌, Bool, false, not, ◌&&◌, ◌||◌, Option, none, some, List, [], ◌∷◌, ltb, ◌==◌,
}
use lol_crawler.Prelude.Maps.{String, str_eq, find, adjust, insert}

abbrev pub active_window : ℕ
active_window = 600000

pub data AuditVerdict : Type 0 where
  pass hard_fail soft_fail : AuditVerdict

pub record NodeRt : Type 0 where
  pub name : String
  pub last_seen : Option ℕ
  pub completed : ℕ
  pub audits_pass : ℕ
  pub audits_hard_fail : ℕ
  pub audits_soft_fail : ℕ
  pub key_bad : Bool

-- `NodeRt { name, ..Default::default() }`.
abbrev pub new_node : String → NodeRt
new_node name = record {
  name = name;
  last_seen = none;
  completed = 0;
  audits_pass = 0;
  audits_hard_fail = 0;
  audits_soft_fail = 0;
  key_bad = false;
}

pub record Registry : Type 0 where
  pub by_token_hash : List (String × ℕ)
  pub nodes : List (ℕ × NodeRt)

abbrev pub empty : Registry
empty = record { by_token_hash = []; nodes = [] }

unfoldable pub enroll_runtime : ℕ → String → String → Registry → Registry
enroll_runtime id name token_hash_hex r = record {
  by_token_hash = insert str_eq token_hash_hex id r.by_token_hash;
  nodes = insert ◌==◌ id (new_node name) r.nodes;
}

abbrev any_name : String → List (ℕ × NodeRt) → Bool
any_name name [] = false
any_name name ((id, n) ∷ m) = str_eq n.name name || any_name name m

unfoldable pub name_taken : String → Registry → Bool
name_taken name r = any_name name r.nodes

unfoldable pub auth : (token_hash : String → String) → String → Registry → Option ℕ
auth token_hash token r = find str_eq (token_hash token) r.by_token_hash

-- `nodes.get_mut(&id)` and a write, where the node is there.
abbrev pub on_node : ℕ → (NodeRt → NodeRt) → Registry → Registry
on_node id f r = record r { nodes = adjust ◌==◌ id f r.nodes }

unfoldable pub touch : ℕ → ℕ → Registry → Registry
touch now id = on_node id (λ n. record n { last_seen = some now })

unfoldable pub job_completed : ℕ → Registry → Registry
job_completed id = on_node id (λ n. record n { completed = n.completed + 1; key_bad = false })

unfoldable pub set_key_bad : ℕ → Bool → Registry → Registry
set_key_bad id bad = on_node id (λ n. record n { key_bad = bad })

abbrev pub count : AuditVerdict → NodeRt → NodeRt
count AuditVerdict.pass n = record n { audits_pass = n.audits_pass + 1 }
count AuditVerdict.hard_fail n = record n { audits_hard_fail = n.audits_hard_fail + 1 }
count AuditVerdict.soft_fail n = record n { audits_soft_fail = n.audits_soft_fail + 1 }

unfoldable pub audit_result : ℕ → ℕ → AuditVerdict → Registry → Registry
audit_result a b verdict r = on_node b (count verdict) (on_node a (count verdict) r)

abbrev is_active : ℕ → Option ℕ → Bool
is_active now none = false
is_active now (some t) = ltb (now - t) active_window

abbrev any_active : ℕ → ℕ → List (ℕ × NodeRt) → Bool
any_active now id [] = false
any_active now id ((nid, n) ∷ m) =
    (not (nid == id) && is_active now n.last_seen) || any_active now id m

unfoldable pub active_node_other_than : ℕ → ℕ → Registry → Bool
active_node_other_than now id r = any_active now id r.nodes
