-- ===== src/Columnar/RoundTrip/Order.antt =====
-- The encoder writes the bans before the participants and the decoder reads them last. The two
-- orders agree, since nothing else goes to the two streams of the bans.
use lol_crawler.Prelude.{
  ℕ, ◌+◌, ◌≡◌, refl, ap, ◌∙◌, sym, Bool, true, false, ◌||◌, ◌==◌, Option, none, some, List, [], ◌∷◌,
  ◌++◌, All-append,
}
use lol_crawler.Prelude.Int.{ℤ}
use lol_crawler.Record.{
  MatchRecord, Participant, TimelineLite, MinuteFrame, KillEvent, ObjectiveEvent, WardEvent,
}
use lol_crawler.Columnar.Stream
use lol_crawler.Columnar.Encode.{Series, series_of, no_series}
use lol_crawler.Columnar.Streams.{
  Col, fixed, stat, rune, Event, Agree, On, Agree-swap, content, content-append,
}
use lol_crawler.Columnar.RoundTrip.Events.{
  bans_events, runes_events, stats_events, participant_events, participants_events, values_events,
  series_events, frame_events, frames_events, kill_events, kills_events, objective_events,
  objectives_events, ward_events, wards_events, timeline_events, timeline?_events, head_events,
  ban_list_events, body_events,
}

abbrev is_bans : Col → Bool
is_bans (fixed i) = i == Stream.bans_n || i == Stream.bans
is_bans (stat i) = false
is_bans (rune i) = false

-- No event goes to the streams of the bans.
abbrev Off : List Event → Type 0
Off = On is_bans false

Off-append : (es fs : List Event) → Off es → Off fs → Off (es ++ fs)
Off-append = All-append (λ e. is_bans e.0 ≡ false)

bans-On : (bs : List ℕ) → On is_bans true (bans_events bs)
unfolding bans_events
bans-On [] = tt
bans-On (b ∷ bs) = (refl, bans-On bs)

runes-Off : (idx : ℕ) (rs : List ℕ) → Off (runes_events idx rs)
unfolding runes_events
runes-Off idx [] = tt
runes-Off idx (r ∷ rs) = (refl, runes-Off (idx + 1) rs)

stats-Off : (idx : ℕ) (ss : List ℤ) → Off (stats_events idx ss)
unfolding stats_events
stats-Off idx [] = tt
stats-Off idx (s ∷ ss) = (refl, stats-Off (idx + 1) ss)

participants-Off : (ps : List Participant) → Off (participants_events ps)
unfolding participants_events participant_events
participants-Off [] = tt
participants-Off (p ∷ ps) =
    Off-append (participant_events p) _
      (
        refl,
        (
          refl,
          (
            refl,
            (
              refl,
              (
                refl,
                (
                  refl,
                  Off-append (runes_events 0 p.runes) _ (runes-Off 0 p.runes)
                      (refl, stats-Off 0 p.stats),
                ),
              ),
            ),
          ),
        ),
      )
      (participants-Off ps)

values-Off :
    (v_col : ℕ) (prev : List ℕ) (slot : ℕ) (vs : List ℕ)
    → is_bans (fixed v_col) ≡ false
    → Off (values_events v_col prev slot vs)
unfolding values_events
values-Off v_col prev slot [] h = tt
values-Off v_col prev slot (v ∷ vs) h = (h, values-Off v_col prev (slot + 1) vs h)

series-Off :
    (n_col v_col : ℕ) (prev vs : List ℕ)
    → is_bans (fixed n_col) ≡ false
    → is_bans (fixed v_col) ≡ false
    → Off (series_events n_col v_col prev vs)
unfolding series_events
series-Off n_col v_col prev vs hn hv = (hn, values-Off v_col prev 0 vs hv)

frame-Off : (prev : Series) (f : MinuteFrame) → Off (frame_events prev f)
unfolding frame_events
frame-Off prev f =
    let gold = series-Off Stream.f_gold_n Stream.f_gold prev.gold f.total_gold refl refl in
    let xp = series-Off Stream.f_xp_n Stream.f_xp prev.xp f.xp refl refl in
    let cs = series-Off Stream.f_cs_n Stream.f_cs prev.cs f.cs refl refl in
    let dmg = series-Off Stream.f_dmg_n Stream.f_dmg prev.dmg f.dmg_to_champs refl refl in
    (refl, Off-append _ _ gold (Off-append _ _ xp (Off-append _ _ cs dmg)))

frames-Off : (prev : Series) (fs : List MinuteFrame) → Off (frames_events prev fs)
unfolding frames_events
frames-Off prev [] = tt
frames-Off prev (f ∷ fs) = Off-append _ _ (frame-Off prev f) (frames-Off (series_of f) fs)

kills-Off : (prev_t : ℕ) (ks : List KillEvent) → Off (kills_events prev_t ks)
unfolding kills_events kill_events
kills-Off prev_t [] = tt
kills-Off prev_t (k ∷ ks) = (refl, (refl, (refl, (refl, (refl, (refl, kills-Off k.t_s ks))))))

objectives-Off : (prev_t : ℕ) (os : List ObjectiveEvent) → Off (objectives_events prev_t os)
unfolding objectives_events objective_events
objectives-Off prev_t [] = tt
objectives-Off prev_t (o ∷ os) = (refl, (refl, (refl, (refl, (refl, objectives-Off o.t_s os)))))

wards-Off : (prev_t : ℕ) (ws : List WardEvent) → Off (wards_events prev_t ws)
unfolding wards_events ward_events
wards-Off prev_t [] = tt
wards-Off prev_t (w ∷ ws) = (refl, (refl, (refl, wards-Off w.t_s ws)))

timeline-Off : (t : TimelineLite) → Off (timeline_events t)
unfolding timeline_events
timeline-Off t =
    let wards = wards-Off 0 t.wards in
    let objectives = Off-append _ _ (objectives-Off 0 t.objectives) (refl, wards) in
    let kills = Off-append _ _ (kills-Off 0 t.kills) (refl, objectives) in
    (refl, Off-append _ _ (frames-Off no_series t.frames) (refl, kills))

timeline?-Off : (t : Option TimelineLite) → Off (timeline?_events t)
unfolding timeline?_events
timeline?-Off none = (refl, tt)
timeline?-Off (some t) = (refl, timeline-Off t)

body-Off : (r : MatchRecord) → Off (body_events r)
unfolding body_events
body-Off r = (refl, Off-append _ _ (participants-Off r.participants) (timeline?-Off r.timeline))

Agree-prefix : (es fs gs : List Event) → Agree fs gs → Agree (es ++ fs) (es ++ gs)
Agree-prefix es fs gs h c =
    content-append c es fs ∙ ap (λ t. content c es ++ t) (h c) ∙ sym (content-append c es gs)

pub bans_last :
    (gid_d start_d : ℤ) (r : MatchRecord)
    → Agree
        (head_events gid_d start_d r ++ (body_events r ++ ban_list_events r))
        (head_events gid_d start_d r ++ (ban_list_events r ++ body_events r))
bans_last gid_d start_d r =
    Agree-prefix _ _ _
      (λ c. sym (Agree-swap is_bans (ban_list_events r) (body_events r) bans (body-Off r) c))
  where
    bans : On is_bans true (ban_list_events r)
    bans = unfold ban_list_events in (refl, bans-On r.bans)
