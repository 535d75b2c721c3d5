-- ===== src/Columnar/RoundTrip/Parts.antt =====
-- The decoder reads back the participants and the bans, as the protobuf bytes of the record.
use lol_crawler.Prelude.{
  ℕ, zero, suc, ◌+◌, ◌<◌, ◌≡◌, refl, sym, ap, ◌∙◌, subst, List, [], ◌∷◌, ◌++◌, get_or, length,
  arith, All, append_assoc, append-nil,
}
use lol_crawler.Prelude.Int.{ℤ, sub_ℕ, IsU32, IsU64, IsI64}
use lol_crawler.Record.{Participant, IsParticipant}
use lol_crawler.Columnar.Varint.{Bytes, write_varint}
use lol_crawler.Columnar.Varint.RoundTrip.{write_varint-varint}
use lol_crawler.Columnar.Delta.Laws.{read_u32-ok, to_usize-ok, add_delta_u32-sub}
use lol_crawler.Columnar.Stream
use lol_crawler.Columnar.Stream.{nmisc}
use lol_crawler.Columnar.Proto.{
  Field, field, fields, repeated, packed_u32, packed_sint64, participant_bytes,
  put_field_varint-field, put_field_message-field, put_field_packed_body-field, uint, bytes,
  message,
}
use lol_crawler.Columnar.Readers.{D}
use lol_crawler.Columnar.Decode.{
  rv_u32, rv_usize, rz_u32, decode_runes, decode_stats, decode_participant, decode_participants,
  decode_bans,
}
use lol_crawler.Columnar.Streams.{Event, v_event, z_event}
use lol_crawler.Columnar.Streams.Reads.{
  Reads, Reads-pure, Reads-lift, Reads-bind, Reads-last, Reads-rv, Reads-rz, Reads-rune, Reads-stat,
}
use lol_crawler.Columnar.RoundTrip.Events.{
  bans_events, runes_events, stats_events, participant_events, participants_events,
}

pub Reads-eq :
    {A : Type 0} {m : D A} {es : List Event} {a b : A} → a ≡ b → Reads m es a → Reads m es b
Reads-eq {m = m} {es = es} e r = subst (λ x. Reads m es x) e r

pub Reads-u32 : (col v : ℕ) → col < nmisc → IsU32 v → Reads (rv_u32 col) (v_event col v ∷ []) v
unfolding rv_u32
Reads-u32 col v c h = Reads-bind _ (Reads-rv col v c (omega arith)) (Reads-lift _ (read_u32-ok v h))

pub Reads-usize : (col v : ℕ) → col < nmisc → IsU64 v → Reads (rv_usize col) (v_event col v ∷ []) v
unfolding rv_usize
Reads-usize col v c h = Reads-bind _ (Reads-rv col v c h) (Reads-lift _ (to_usize-ok v h))

pub Reads-delta_u32 :
    (col v prev : ℕ)
    → col < nmisc
    → IsU32 v
    → IsU32 prev
    → Reads (rz_u32 col prev) (z_event col (sub_ℕ v prev) ∷ []) v
unfolding rz_u32
Reads-delta_u32 col v prev c h k =
    let (e, fits) = add_delta_u32-sub v prev h k in
    Reads-bind _ (Reads-rz col (sub_ℕ v prev) c fits) (Reads-lift _ e)

pub Reads-bans :
    (bs : List ℕ) (out : Bytes)
    → All IsU32 bs
    → Reads (decode_bans (length bs) out) (bans_events bs) (out ++ packed_u32 bs)
unfolding decode_bans bans_events packed_u32
Reads-bans [] out h = Reads-eq (sym (append-nil out)) (Reads-pure out)
Reads-bans (b ∷ bs) out h =
    Reads-bind _ (Reads-u32 Stream.bans b (omega arith) h.0)
      (Reads-eq (simp (write_varint-varint, append_assoc)) (Reads-bans bs (write_varint out b) h.1))

Reads-runes :
    (rs : List ℕ) (idx : ℕ) (out : Bytes)
    → All IsU32 rs
    → Reads (decode_runes (length rs) idx out) (runes_events idx rs) (out ++ packed_u32 rs)
unfolding decode_runes runes_events packed_u32
Reads-runes [] idx out h = Reads-eq (sym (append-nil out)) (Reads-pure out)
Reads-runes (r ∷ rs) idx out h = Reads-bind _ (Reads-rune idx r (omega (arith, h.0))) (
    Reads-bind _ (Reads-lift _ (read_u32-ok r h.0)) (
      Reads-eq (simp (write_varint-varint, append_assoc))
        (Reads-runes rs (idx + 1) (write_varint out r) h.1)))

Reads-stats :
    (ss : List ℤ) (idx : ℕ) (out : Bytes)
    → All IsI64 ss
    → Reads (decode_stats (length ss) idx out) (stats_events idx ss) (out ++ packed_sint64 ss)
unfolding decode_stats stats_events packed_sint64
Reads-stats [] idx out h = Reads-eq (sym (append-nil out)) (Reads-pure out)
Reads-stats (s ∷ ss) idx out h =
    Reads-bind _ (Reads-stat idx s h.0)
      (Reads-eq (simp (write_varint-varint, append_assoc)) (Reads-stats ss (idx + 1) _ h.1))

-- To append fields one by one is to write them all.
pub ruleset put_laws = (
  put_field_varint-field, put_field_message-field, put_field_packed_body-field, append_assoc,
  append-nil,
)

Reads-participant :
    (p : Participant)
    → IsParticipant p
    → Reads decode_participant (participant_events p) (participant_bytes p)
unfolding decode_participant participant_events participant_bytes fields
Reads-participant p h =
    Reads-bind _ (Reads-u32 Stream.p_player p.player_id (omega arith) h.player_id) (
      Reads-bind _ (Reads-u32 Stream.p_champ p.champion_id (omega arith) h.champion_id) (
        Reads-bind _ (Reads-u32 Stream.p_pos p.position (omega arith) h.position) (
          Reads-bind _ (Reads-u32 Stream.p_sp1 p.spell1 (omega arith) h.spell1) (
            Reads-bind _ (Reads-u32 Stream.p_sp2 p.spell2 (omega arith) h.spell2) (
              Reads-bind _ (Reads-usize Stream.p_runes_n (length p.runes) (omega arith) h.runes_len)
                (Reads-bind _ (Reads-runes p.runes 0 [] h.runes) (
                  Reads-bind _
                    (Reads-usize Stream.p_stats_n (length p.stats) (omega arith) h.stats_len)
                    (Reads-last _ (Reads-stats p.stats 0 [] h.stats)
                      (Reads-eq (simp put_laws) (Reads-pure _))))))))))

pub Reads-participants :
    (ps : List Participant) (out : Bytes)
    → All IsParticipant ps
    → Reads
        (decode_participants (length ps) out)
        (participants_events ps)
        (out ++ repeated 11 participant_bytes ps)
unfolding decode_participants participants_events repeated
Reads-participants [] out h = Reads-eq (sym (append-nil out)) (Reads-pure out)
Reads-participants (p ∷ ps) out h =
    Reads-bind _ (Reads-participant p h.0) (Reads-eq (simp put_laws) (Reads-participants ps _ h.1))
