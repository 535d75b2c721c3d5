-- ===== src/Record.antt =====
-- The match record of crates/server/src/record.rs: the messages that prost derives. A u32 or u64 is
-- a number, an i64 an integer, a String its UTF-8 bytes. The ranges of the fields are `IsRecord`.
use lol_crawler.Prelude.{ℕ, Bool, Option, none, some, List, length, All}
use lol_crawler.Prelude.Int.{ℤ, IsI64, IsU32, IsU64}

pub record Participant : Type 0 where
  pub player_id : ℕ
  pub champion_id : ℕ
  pub position : ℕ
  pub spell1 : ℕ
  pub spell2 : ℕ
  pub runes : List ℕ
  pub stats : List ℤ

-- A snapshot for each minute.
pub record MinuteFrame : Type 0 where
  pub minute : ℕ
  pub total_gold : List ℕ
  pub xp : List ℕ
  pub cs : List ℕ
  pub dmg_to_champs : List ℕ

pub record KillEvent : Type 0 where
  pub t_s : ℕ
  pub killer : ℕ
  pub victim : ℕ
  pub assist_mask : ℕ
  pub x : ℕ
  pub y : ℕ

pub record ObjectiveEvent : Type 0 where
  pub t_s : ℕ
  pub kind : ℕ
  pub killer : ℕ
  pub losing_team : ℕ
  pub lane : ℕ

pub record WardEvent : Type 0 where
  pub t_s : ℕ
  pub kind : ℕ
  pub participant : ℕ

pub record TimelineLite : Type 0 where
  pub frames : List MinuteFrame
  pub kills : List KillEvent
  pub objectives : List ObjectiveEvent
  pub wards : List WardEvent

pub record MatchRecord : Type 0 where
  pub schema_version : ℕ
  pub game_id : ℕ
  pub platform : List ℕ
  pub queue_id : ℕ
  pub game_start_ms : ℤ
  pub duration_s : ℕ
  pub blue_won : Bool
  pub game_version : List ℕ
  pub patch_major : ℕ
  pub patch_minor : ℕ
  pub participants : List Participant
  pub timeline : Option TimelineLite
  pub bans : List ℕ

-- The ranges that the field types of the source fix; a vector's length is a usize.
pub record IsParticipant (p : Participant) : Type 0 where
  pub player_id : IsU32 p.player_id
  pub champion_id : IsU32 p.champion_id
  pub position : IsU32 p.position
  pub spell1 : IsU32 p.spell1
  pub spell2 : IsU32 p.spell2
  pub runes_len : IsU64 (length p.runes)
  pub runes : All IsU32 p.runes
  pub stats_len : IsU64 (length p.stats)
  pub stats : All IsI64 p.stats

-- A vector of u32.
abbrev pub IsSeries : List ℕ → Type 0
IsSeries vs = IsU64 (length vs) × All IsU32 vs

pub record IsFrame (f : MinuteFrame) : Type 0 where
  pub minute : IsU32 f.minute
  pub total_gold : IsSeries f.total_gold
  pub xp : IsSeries f.xp
  pub cs : IsSeries f.cs
  pub dmg_to_champs : IsSeries f.dmg_to_champs

pub record IsKill (k : KillEvent) : Type 0 where
  pub t_s : IsU32 k.t_s
  pub killer : IsU32 k.killer
  pub victim : IsU32 k.victim
  pub assist_mask : IsU32 k.assist_mask
  pub x : IsU32 k.x
  pub y : IsU32 k.y

pub record IsObjective (o : ObjectiveEvent) : Type 0 where
  pub t_s : IsU32 o.t_s
  pub kind : IsU32 o.kind
  pub killer : IsU32 o.killer
  pub losing_team : IsU32 o.losing_team
  pub lane : IsU32 o.lane

pub record IsWard (w : WardEvent) : Type 0 where
  pub t_s : IsU32 w.t_s
  pub kind : IsU32 w.kind
  pub participant : IsU32 w.participant

pub record IsTimeline (t : TimelineLite) : Type 0 where
  pub frames_len : IsU64 (length t.frames)
  pub frames : All IsFrame t.frames
  pub kills_len : IsU64 (length t.kills)
  pub kills : All IsKill t.kills
  pub objectives_len : IsU64 (length t.objectives)
  pub objectives : All IsObjective t.objectives
  pub wards_len : IsU64 (length t.wards)
  pub wards : All IsWard t.wards

abbrev pub IsTimeline? : Option TimelineLite → Type 0
IsTimeline? none = Unit {0}
IsTimeline? (some t) = IsTimeline t

pub record IsRecord (r : MatchRecord) : Type 0 where
  pub schema_version : IsU32 r.schema_version
  pub game_id : IsU64 r.game_id
  pub platform_len : IsU64 (length r.platform)
  pub queue_id : IsU32 r.queue_id
  pub game_start_ms : IsI64 r.game_start_ms
  pub duration_s : IsU32 r.duration_s
  pub game_version_len : IsU64 (length r.game_version)
  pub patch_major : IsU32 r.patch_major
  pub patch_minor : IsU32 r.patch_minor
  pub participants_len : IsU64 (length r.participants)
  pub participants : All IsParticipant r.participants
  pub timeline : IsTimeline? r.timeline
  pub bans : IsSeries r.bans
