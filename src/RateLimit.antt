-- ===== src/RateLimit.antt =====
-- The sliding-window limiter of crates/node/src/ratelimit.rs. An `Instant` or a `Duration` is a
-- number of milliseconds. The gap of the pacer is drawn at random in floating point: `gap` gives
-- it, for the windows in force.
pub mod Count
pub mod Window
use lol_crawler.Prelude.{
  ℕ, zero, suc, ◌+◌, ◌-◌, ◌*◌, Bool, true, false, ◌&&◌, Option, none, some, List, [], ◌∷◌, ◌++◌,
  get_elem?, length, leb, ltb, ◌==◌, if◌then◌else◌,
}

pub record WindowSpec : Type 0 where
  pub limit : ℕ
  pub window_ms : ℕ

abbrev pub default_specs : List WindowSpec
default_specs =
    record { limit = 20; window_ms = 1000 } ∷ record { limit = 100; window_ms = 120000 } ∷ []

-- `sent` stands with the oldest send first.
pub record Windows : Type 0 where
  pub specs : List WindowSpec
  pub sent : List ℕ
  pub cooldown_until : Option ℕ
  pub next_slot : Option ℕ

abbrev pub new : List WindowSpec → Windows
new specs = record { specs = specs; sent = []; cooldown_until = none; next_slot = none }

abbrev spec_eq : List WindowSpec → List WindowSpec → Bool
spec_eq [] [] = true
spec_eq (s ∷ ss) (t ∷ ts) = s.limit == t.limit && (s.window_ms == t.window_ms && spec_eq ss ts)
spec_eq _ _ = false

unfoldable pub update_specs : List WindowSpec → Windows → Windows
update_specs [] w = w
update_specs (s ∷ ss) w = if spec_eq w.specs (s ∷ ss) then w else record w { specs = s ∷ ss }

abbrev pub max : ℕ → ℕ → ℕ
max a b = if leb a b then b else a

abbrev pub max_window : List WindowSpec → ℕ
max_window [] = 0
max_window (s ∷ ss) = max s.window_ms (max_window ss)

-- Sends that have left the largest window are popped off the front.
unfoldable pub prune : ℕ → ℕ → List ℕ → List ℕ
prune window now [] = []
prune window now (front ∷ sent) =
    let rest = prune window now sent in if leb window (now - front) then rest else front ∷ sent

-- `iter().rev().take_while(|t| now - t < win).count()`.
unfoldable pub in_window : ℕ → ℕ → List ℕ → ℕ
in_window win now [] = 0
in_window win now (t ∷ sent) =
    let newer = in_window win now sent in
    if newer == length sent && ltb (now - t) win then suc newer else newer

-- What a look at the limiter comes to: the send is granted, or it waits, or an index is out of
-- bounds and the task panics.
pub data Attempt : Type 0 where
  granted : Attempt
  waits : ℕ → Attempt
  panics : Attempt

abbrev pub longer : Attempt → ℕ → Attempt
longer Attempt.granted d = Attempt.waits d
longer (Attempt.waits cur) d = Attempt.waits (max cur d)
longer Attempt.panics d = Attempt.panics

abbrev pub full : ℕ → ℕ → Option ℕ → Attempt → Attempt
full win now none so_far = Attempt.panics
full win now (some nth_newest) so_far = longer so_far (win - (now - nth_newest))

-- The loop over the windows.
unfoldable pub check_specs : ℕ → List ℕ → List WindowSpec → Attempt → Attempt
check_specs now sent [] so_far = so_far
check_specs now sent (s ∷ ss) so_far = check_specs now sent ss (
    if leb s.limit (in_window s.window_ms now sent)
    then full s.window_ms now (get_elem? sent (length sent - s.limit)) so_far
    else so_far)

-- How much of a time is left, if any.
abbrev pub left_of : ℕ → Option ℕ → Option ℕ
left_of now none = none
left_of now (some t) = if ltb now t then some (t - now) else none

abbrev pub reserve :
    Bool → (List WindowSpec → ℕ) → ℕ → List ℕ → Attempt → Windows → Attempt × Windows
reserve pace gap now sent Attempt.granted w = (
  Attempt.granted,
  record w {
    sent = sent ++ (now ∷ []);
    next_slot = if pace then some (now + gap w.specs) else w.next_slot;
  },
)
reserve pace gap now sent refused w = (refused, record w { sent = sent })

abbrev pub windows_open : Bool → (List WindowSpec → ℕ) → ℕ → Windows → Attempt × Windows
windows_open pace gap now w =
    let sent = prune (max_window w.specs) now w.sent in
    reserve pace gap now sent (check_specs now sent w.specs Attempt.granted) w

abbrev pub paced : Bool → (List WindowSpec → ℕ) → ℕ → Option ℕ → Windows → Attempt × Windows
paced true gap now (some d) w = (Attempt.waits d, w)
paced pace gap now _ w = windows_open pace gap now w

abbrev pub cooled : Bool → (List WindowSpec → ℕ) → ℕ → Option ℕ → Windows → Attempt × Windows
cooled pace gap now (some d) w = (Attempt.waits d, w)
cooled pace gap now none w =
    paced pace gap now (left_of now w.next_slot) (record w { cooldown_until = none })

-- One turn of the loop in `acquire`, under the lock.
unfoldable pub acquire : Bool → (List WindowSpec → ℕ) → ℕ → Windows → Attempt × Windows
acquire pace gap now w = cooled pace gap now (left_of now w.cooldown_until) w

unfoldable pub cooldown : ℕ → ℕ → Windows → Windows
cooldown now secs w =
    let until = now + secs * 1000 in
    elim w.cooldown_until [
      | none ↦ record w { cooldown_until = some until }
      | some u ↦ if ltb u until then record w { cooldown_until = some until } else w
    ]
