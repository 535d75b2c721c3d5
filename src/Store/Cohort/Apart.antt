-- ===== src/Store/Cohort/Apart.antt =====
-- Nobody is a member of the cohort and counted as an outsider at once.
use lol_crawler.Prelude.{
  ℕ, ◌+◌, ◌^◌, ◌<◌, ◌≡◌, refl, sym, ap, ◌∙◌, Bool, true, false, not, ◌&&◌, Option, none, some, List,
  [], ◌∷◌, leb, ◌==◌, ==_self, if◌then◌else◌, arith,
}
use lol_crawler.Prelude.Maps.{String, find, insert, remove}
use lol_crawler.Prelude.Maps.Lookup.{find-insert, find-remove}
use lol_crawler.Store.{Store}
use lol_crawler.Store.Cohort.{
  is_there, is_cohort, sightings, adopt, sight, outsider_step, participant_step, prepend,
  adopt_participants, not_members, enrol, enrol_all, cohort_add_batch,
}

pub IsApart : Store → Type 0
IsApart s = (pid : ℕ) → is_cohort s pid ≡ true → find ◌==◌ pid s.outsider_seen ≡ none

none_if :
    {A : Type 0} (b : Bool) (o : Option A) → (b ≡ false → o ≡ none) → (if b then none else o) ≡ none
none_if true o h = refl
none_if false o h = h refl

there_if :
    {A : Type 0} (b : Bool) (a : A) (o : Option A)
    → is_there (if b then some a else o) ≡ true
    → b ≡ false
    → is_there o ≡ true
there_if true a o h e = cc
there_if false a o h e = h

-- A new member, who leaves the outsiders.
member-IsApart :
    (pid : ℕ) (since : ℕ × ℕ) (s : Store)
    → IsApart s
    → IsApart (record s {
      cohort = insert ◌==◌ pid since s.cohort;
      outsider_seen = remove ◌==◌ pid s.outsider_seen;
    })
unfolding IsApart
member-IsApart pid since s h q m =
    find-remove q pid s.outsider_seen
    ∙ none_if (q == pid) _ (λ e.
      h q
        (there_if (q == pid) since _ (ap is_there (sym (find-insert q pid since s.cohort)) ∙ m) e))

sight-IsApart : (pid : ℕ) (s : Store) → is_cohort s pid ≡ false → IsApart s → IsApart (sight pid s)
unfolding IsApart
sight-IsApart pid s off h q m =
    find-insert q pid (sightings s pid) s.outsider_seen ∙ by_test (q == pid) refl
  where
    by_test :
        (b : Bool)
        → (q == pid) ≡ b
        → (if b then some (sightings s pid) else find ◌==◌ q s.outsider_seen) ≡ none
    by_test true t =
        let same : q ≡ pid = ground (arith, t) in
        let m' : is_cohort s pid ≡ true = ap (is_cohort s) (sym same) ∙ m in cc (m', off)
    by_test false f = h q m

participant_step-IsApart :
    (paused : Bool) (ts_ms pid : ℕ) (puuid : String) (s : Store)
    → IsApart s
    → IsApart (participant_step paused ts_ms pid puuid s).1
participant_step-IsApart paused ts_ms pid puuid s h = by_member (is_cohort s pid) refl
  where
    by_count :
        (b : Bool)
        → is_cohort s pid ≡ false
        → IsApart
            (if◌then◌else◌ {A = List (ℕ × String) × Store} b
              ((pid, puuid) ∷ [], adopt ts_ms pid s)
              ([], sight pid s)).1
    by_count true off = member-IsApart pid _ s h
    by_count false off = sight-IsApart pid s off h

    by_member :
        (b : Bool)
        → is_cohort s pid ≡ b
        → IsApart
            (if◌then◌else◌ {A = List (ℕ × String) × Store} b
              ([], s)
              (outsider_step paused ts_ms pid puuid s)).1
    by_member true e = h
    by_member false e = by_count (not paused && leb 2 (sightings s pid)) e

-- Adoption keeps members and outsiders apart.
pub adopt_participants-IsApart :
    (paused : Bool) (ts_ms : ℕ) (ps : List (ℕ × String)) (s : Store)
    → IsApart s
    → IsApart (adopt_participants paused ts_ms ps s).1
unfolding adopt_participants
adopt_participants-IsApart paused ts_ms [] s h = h
adopt_participants-IsApart paused ts_ms ((pid, puuid) ∷ ps) s h =
    adopt_participants-IsApart paused ts_ms ps (participant_step paused ts_ms pid puuid s).1
      (participant_step-IsApart paused ts_ms pid puuid s h)

enrol_all-IsApart :
    (now_ms source : ℕ) (pids : List ℕ) (s : Store)
    → IsApart s
    → IsApart (enrol_all now_ms source pids s)
unfolding enrol_all
enrol_all-IsApart now_ms source [] s h = h
enrol_all-IsApart now_ms source (pid ∷ pids) s h =
    enrol_all-IsApart now_ms source pids (enrol now_ms source pid s) (member-IsApart pid _ s h)

-- Enrolment keeps members and outsiders apart.
pub cohort_add_batch-IsApart :
    (players : List ℕ) (source now_ms : ℕ) (s : Store)
    → IsApart s
    → IsApart (cohort_add_batch players source now_ms s).1
unfolding cohort_add_batch
cohort_add_batch-IsApart players source now_ms s h =
    enrol_all-IsApart now_ms source (not_members s players) s h

-- While growth is paused nobody is adopted: the cohort stays as it was.
pub adopt_participants-paused :
    (ts_ms : ℕ) (ps : List (ℕ × String)) (s : Store)
    → ((adopt_participants true ts_ms ps s).0 ≡ [])
      × ((adopt_participants true ts_ms ps s).1.cohort ≡ s.cohort)
unfolding adopt_participants
adopt_participants-paused ts_ms [] s = (refl, refl)
adopt_participants-paused ts_ms ((pid, puuid) ∷ ps) s =
    let (a, c) = by_member (is_cohort s pid) in
    let (rest, same) =
      adopt_participants-paused ts_ms ps (participant_step true ts_ms pid puuid s).1 in
    (
      ap
            (λ t.
              prepend t
                (adopt_participants true ts_ms ps (participant_step true ts_ms pid puuid s).1).0)
            a
          ∙ rest,
      same ∙ c,
    )
  where
    by_member :
        (b : Bool)
        → ((if◌then◌else◌ {A = List (ℕ × String) × Store} b
              ([], s)
              (outsider_step true ts_ms pid puuid s)).0
            ≡ [])
          × ((if◌then◌else◌ {A = List (ℕ × String) × Store} b
                ([], s)
                (outsider_step true ts_ms pid puuid s)).1.cohort
              ≡ s.cohort)
    by_member true = (refl, refl)
    by_member false = (refl, refl)

-- While growth is not paused, an outsider who is seen for the second time joins the cohort.
pub participant_step-adopts :
    (ts_ms pid : ℕ) (puuid : String) (s : Store) (n : ℕ)
    → is_cohort s pid ≡ false
    → find ◌==◌ pid s.outsider_seen ≡ some n
    → 0 < n
    → n + 1 < 2 ^ 32
    → ((participant_step false ts_ms pid puuid s).0 ≡ (pid, puuid) ∷ [])
      × (is_cohort (participant_step false ts_ms pid puuid s).1 pid ≡ true)
participant_step-adopts ts_ms pid puuid s n off found some_seen room =
    let count : leb 2 (sightings s pid) ≡ true = rw found (ground (arith, some_seen, room)) in
    rw (off, count)
      (refl, ap is_there (find-insert pid pid (ts_ms, 1) s.cohort) ∙ rw (==_self pid) refl)
