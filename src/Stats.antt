-- ===== src/Stats.antt =====
-- The counters of crates/server/src/stats.rs. A map from hours to buckets is a list of entries in
-- any order, `dirty` a list without repetitions; the counters are exact numbers, as no node
-- reaches 2 ^ 64 requests.
pub mod Ring
use lol_crawler.Prelude.{
  ℕ, zero, suc, ◌+◌, ◌-◌, ◌*◌, ◌/◌, ◌%◌, Bool, true, false, ◌||◌, Option, none, some, List, [], ◌∷◌,
  ◌++◌, ltb, leb, ◌==◌, if◌then◌else◌, length, get_or, set, replicate,
}
use lol_crawler.Prelude.Maps.{find, insert, keep_if}

abbrev pub minute_ms : ℕ
minute_ms = 60000

abbrev pub hour_ms : ℕ
hour_ms = 3600000

abbrev pub retain_hours : ℕ
retain_hours = 169

pub record Bucket : Type 0 where
  pub requests : ℕ
  pub matches : ℕ

abbrev pub no_requests : Bucket
no_requests = record { requests = 0; matches = 0 }

abbrev pub add : Bucket → Bucket → Bucket
add b o = record { requests = b.requests + o.requests; matches = b.matches + o.matches }

pub record NodeStats : Type 0 where
  pub total : Bucket
  pub minutes : List Bucket
  pub head_minute : ℕ
  pub hours : List (ℕ × Bucket)
  pub dirty : List ℕ

abbrev pub new : NodeStats
new = record {
  total = no_requests;
  minutes = replicate 60 no_requests;
  head_minute = 0;
  hours = [];
  dirty = [];
}

-- The loop of `advance` from `i`, with `steps` rounds to go.
unfoldable pub clear_slots : ℕ → ℕ → List Bucket → List Bucket
clear_slots head zero minutes = minutes
clear_slots head (suc steps) minutes =
    clear_slots (head + 1) steps (set minutes ((head + 1) % 60) no_requests)

abbrev min : ℕ → ℕ → ℕ
min a b = if leb a b then a else b

unfoldable pub advance : ℕ → NodeStats → NodeStats
advance minute ns = if leb minute ns.head_minute then ns else (record ns {
  minutes = clear_slots ns.head_minute (min (minute - ns.head_minute) 60) ns.minutes;
  head_minute = minute;
})

abbrev pub sum : List Bucket → Bucket → Bucket
sum [] b = b
sum (slot ∷ slots) b = sum slots (add b slot)

unfoldable pub window_m60 : NodeStats → Bucket
window_m60 ns = sum ns.minutes no_requests

abbrev sum_from : ℕ → List (ℕ × Bucket) → Bucket → Bucket
sum_from cutoff [] b = b
sum_from cutoff ((hour, v) ∷ hours) b =
    if leb cutoff hour then sum_from cutoff hours (add b v) else sum_from cutoff hours b

unfoldable pub window_hours : ℕ → ℕ → NodeStats → Bucket
window_hours now_ms n ns = sum_from ((now_ms / hour_ms - (n - 1)) * hour_ms) ns.hours no_requests

-- `entry(hour).or_default().add(b)`.
abbrev pub add_hour : ℕ → Bucket → List (ℕ × Bucket) → List (ℕ × Bucket)
add_hour hour b [] = (hour, add no_requests b) ∷ []
add_hour hour b ((h, v) ∷ hours) =
    if hour == h then (h, add v b) ∷ hours else (h, v) ∷ add_hour hour b hours

abbrev pub put_dirty : ℕ → List ℕ → List ℕ
put_dirty hour [] = hour ∷ []
put_dirty hour (h ∷ hs) = if hour == h then h ∷ hs else h ∷ put_dirty hour hs

-- `split_off(&cutoff)` keeps the hours from the cutoff on.
abbrev pub retain : ℕ → List (ℕ × Bucket) → List (ℕ × Bucket)
retain hour hours =
    if ltb retain_hours (length hours)
    then keep_if (λ e. leb (hour - retain_hours * hour_ms) e.0) hours
    else hours

abbrev pub one : Bool → Bucket
one is_match = record { requests = 1; matches = if is_match then 1 else 0 }

-- What `Stats::record` does to its node's entry.
unfoldable pub record_node : Bool → ℕ → NodeStats → NodeStats
record_node is_match now_ms ns =
    let b = one is_match in
    let ns1 = advance (now_ms / minute_ms) ns in
    let slot = ns1.head_minute % 60 in
    let hour = now_ms / hour_ms * hour_ms in
    record {
      total = add ns1.total b;
      minutes = set ns1.minutes slot (add (get_or ns1.minutes slot no_requests) b);
      head_minute = ns1.head_minute;
      hours = retain hour (add_hour hour b ns1.hours);
      dirty = put_dirty hour ns1.dirty;
    }

abbrev pub Stats : Type 0
Stats = List (ℕ × NodeStats)

unfoldable pub record_request : ℕ → Bool → ℕ → Stats → Stats
unfolding record_node
record_request node_id is_match now_ms [] = (node_id, record_node is_match now_ms new) ∷ []
record_request node_id is_match now_ms ((id, ns) ∷ rest) =
    if node_id == id
    then (id, record_node is_match now_ms ns) ∷ rest
    else (id, ns) ∷ record_request node_id is_match now_ms rest

pub record NodeWindows : Type 0 where
  pub node_id : ℕ
  pub m60 : Bucket
  pub h24 : Bucket
  pub d7 : Bucket
  pub all : Bucket

-- `snapshot` advances every ring to the present.
unfoldable pub snapshot : ℕ → Stats → List NodeWindows × Stats
snapshot now_ms [] = ([], [])
snapshot now_ms ((id, ns) ∷ rest) =
    let ns1 = advance (now_ms / minute_ms) ns in
    let (windows, rest') = snapshot now_ms rest in
    (
      record {
        node_id = id;
        m60 = window_m60 ns1;
        h24 = window_hours now_ms 24 ns1;
        d7 = window_hours now_ms 168 ns1;
        all = ns1.total;
      }
          ∷ windows,
      (id, ns1) ∷ rest',
    )

abbrev drain : ℕ → List (ℕ × Bucket) → List ℕ → List (ℕ × ℕ × Bucket)
drain id hours [] = []
drain id hours (hour ∷ dirty) =
    let rest = drain id hours dirty in
    elim (find ◌==◌ hour hours) [ some b ↦ (id, hour, b) ∷ rest | none ↦ rest ]

unfoldable pub take_dirty : Stats → List (ℕ × ℕ × Bucket) × Stats
take_dirty [] = ([], [])
take_dirty ((id, ns) ∷ rest) =
    let (out, rest') = take_dirty rest in
    (drain id ns.hours ns.dirty ++ out, (id, record ns { dirty = [] }) ∷ rest')

-- One row of `load`.
abbrev load_row : ℕ → ℕ → ℕ → Bucket → NodeStats → NodeStats
load_row cutoff now_ms hour bucket ns = record ns {
  total = add ns.total bucket;
  hours = if leb cutoff hour then insert ◌==◌ hour bucket ns.hours else ns.hours;
  head_minute = now_ms / minute_ms;
}

abbrev on_entry : ℕ → (NodeStats → NodeStats) → Stats → Stats
on_entry node f [] = (node, f new) ∷ []
on_entry node f ((id, ns) ∷ rest) =
    if node == id then (id, f ns) ∷ rest else (id, ns) ∷ on_entry node f rest

abbrev load_rows : ℕ → ℕ → List (ℕ × ℕ × Bucket) → Stats → Stats
load_rows cutoff now_ms [] map = map
load_rows cutoff now_ms ((node, hour, bucket) ∷ rows) map =
    load_rows cutoff now_ms rows (on_entry node (load_row cutoff now_ms hour bucket) map)

unfoldable pub load : List (ℕ × ℕ × Bucket) → ℕ → Stats
load rows now_ms = load_rows ((now_ms / hour_ms - retain_hours) * hour_ms) now_ms rows []
