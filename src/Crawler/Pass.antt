-- ===== src/Crawler/Pass.antt =====
-- A turn of the crawler's loop loses nobody.
use lol_crawler.Prelude.{
  ℕ, ◌+◌, ◌*◌, ◌/◌, ◌≡◌, refl, sym, ap, ◌∙◌, inl, inr, Bool, true, false, Bool-cases, Option, none,
  some, List, [], ◌∷◌, ◌==◌, if◌then◌else◌, arith, All,
}
use lol_crawler.Prelude.Result.{ok, ◌>>=◌}
use lol_crawler.Prelude.Maps.{String, str_eq, find}
use lol_crawler.Columnar.Varint.{Bytes}
use lol_crawler.Record.{MatchRecord}
use lol_crawler.Segment.Writer.{Files, SegmentWriter, needs_roll, roll}
use lol_crawler.Segment.Writer.Opens.{open_writer-ok, roll-ok}
use lol_crawler.Store.{Store}
use lol_crawler.Store.Cohort.{is_there, is_cohort}
use lol_crawler.Store.Match.{writer_for, append_match, store_tables, store_match}
use lol_crawler.Frontier.{
  bucket_priority, bucket_other, deep_visit_ms, Slot, FrontierTask, Frontier, take_row, or_later,
  first_in, frontier_pop_due,
}
use lol_crawler.Crawler.{
  Region, Entries, cohort_src_ladder, update_brake, expand_from, maybe_expand, Fetched,
  fetch_and_store_match, fetch_all, Visit, failed, cut_short, finished, cursor_page, reschedule,
  process_player, handle_task, pass,
}
use lol_crawler.Crawler.Members.{is_queued-push}
use lol_crawler.Frontier.Agrees.{
  slot_of, frontier_push-IsFrontier, removed-others, take_row-IsFrontier,
}
use lol_crawler.Frontier.Order.{Has, FirstOrNone, first_in-first, Has-slot_of}
use lol_crawler.Crawler.Queued.{
  AllQueued, IsSampled, enroll-AllQueued, fetch_and_store_match-AllQueued,
}

abbrev pub nobody : ℕ → Bool
nobody q = false

module _ (crc : Bytes → ℕ) (compress : Bytes → Option Bytes) (encode_to_vec : MatchRecord → Bytes)
    (today : String) (day_files : String → Files)
    (packs : (b : Bytes) → (c : Bytes) × (compress b ≡ some c)) where
  writer_for-ok :
      (platform : String) (o : Option SegmentWriter)
      → (w : SegmentWriter) × (writer_for crc compress encode_to_vec today day_files platform o
          ≡ ok w)
  writer_for-ok platform none = open_writer-ok today (day_files platform)
  writer_for-ok platform (some w) = by_date (needs_roll today w)
    where
      by_date :
          (b : Bool)
          → (w' : SegmentWriter) × ((if b
                then (roll crc compress today (day_files platform) w >>= λ r. ok (r.1))
                else ok w)
              ≡ ok w')
      by_date true =
          let (r, e) = roll-ok crc compress packs today (day_files platform) w in (r.1, rw e refl)
      by_date false = (w, refl)

  -- Where zstd compresses whatever it is given, storing a match succeeds.
  pub store_match-ok :
      (rec : MatchRecord) (puuids : List String) (ts_ms : ℕ) (paused : Bool) (s : Store)
      → (adopted : List (ℕ × String)) × ((store_match crc compress encode_to_vec today day_files rec
            puuids ts_ms paused s).1
          ≡ ok adopted)
  unfolding store_match append_match
  store_match-ok rec puuids ts_ms paused s =
      let t : MatchRecord × List (ℕ × String) × Store = store_tables rec puuids ts_ms paused s in
      let (w, e) = writer_for-ok (t.0.platform) (find str_eq (t.0.platform) (t.2.writers)) in
      (t.1, rw e refl)

  fetch_all-AllQueued :
      (in_hand : ℕ → Bool) (own : String) (now_ms : ℕ) (matches : List ((String × ℕ) × Fetched))
      (r : Region)
      → All (λ m. IsSampled crc compress encode_to_vec today day_files m.1) matches
      → AllQueued in_hand r.store r.frontier
      → AllQueued in_hand
          (fetch_all crc compress encode_to_vec today day_files own now_ms matches r).store
          (fetch_all crc compress encode_to_vec today day_files own now_ms matches r).frontier
  unfolding fetch_all
  fetch_all-AllQueued in_hand own now_ms [] r k h = h
  fetch_all-AllQueued in_hand own now_ms (((platform, game_id), got) ∷ rest) r k h =
      fetch_all-AllQueued in_hand own now_ms rest
        (fetch_and_store_match crc compress encode_to_vec today day_files own platform game_id got
          now_ms r).0
        k.1
        (fetch_and_store_match-AllQueued crc compress encode_to_vec today day_files in_hand own
          platform game_id got now_ms r
          (λ rec puuids ts_ms. store_match-ok rec puuids ts_ms r.braked r.store) k.0 h)

  reschedule-AllQueued :
      (own : String) (due pid : ℕ) (task : FrontierTask) (r : Region)
      → AllQueued (λ q. q == pid) r.store r.frontier
      → AllQueued nobody r.store
          (reschedule crc compress encode_to_vec today day_files own due pid task r).frontier
  reschedule-AllQueued own due pid task r h = record {
    tables = frontier_push-IsFrontier own bucket_priority due pid task r.frontier h.tables;
    tasks = λ q m free.
        is_queued-push q own bucket_priority due pid task r.frontier h.tables
          (elim (Bool-cases (q == pid)) [ inl t ↦ inl t | inr f ↦ inr (h.tasks q m f) ]);
  }

  update_brake-AllQueued :
      (in_hand : ℕ → Bool) (own : String) (now_ms : ℕ) (r : Region)
      → AllQueued in_hand r.store r.frontier
      → AllQueued in_hand (update_brake own now_ms r).store (update_brake own now_ms r).frontier
  unfolding update_brake
  update_brake-AllQueued in_hand own now_ms r h = h

  -- Saving the raw samples of a visit's matches succeeds.
  abbrev pub AllSampled : Visit crc compress encode_to_vec today day_files → Type 0
  AllSampled failed = Unit {0}
  AllSampled (cut_short matches) =
      All (λ m. IsSampled crc compress encode_to_vec today day_files m.1) matches
  AllSampled (finished matches due) =
      All (λ m. IsSampled crc compress encode_to_vec today day_files m.1) matches

  process_player-AllQueued :
      (own : String) (now_ms pid : ℕ) (task : FrontierTask)
      (v : Visit crc compress encode_to_vec today day_files) (r : Region)
      → AllSampled v
      → AllQueued (λ q. q == pid) r.store r.frontier
      → AllQueued nobody
          (process_player crc compress encode_to_vec today day_files own now_ms pid task v r).store
          (process_player crc compress encode_to_vec today day_files own now_ms pid task v
            r).frontier
  process_player-AllQueued own now_ms pid task failed r k h =
      reschedule-AllQueued own (now_ms + 3600 * 1000) pid task (update_brake own now_ms r)
        (update_brake-AllQueued (λ q. q == pid) own now_ms r h)
  process_player-AllQueued own now_ms pid task (cut_short matches) r k h =
      reschedule-AllQueued own now_ms pid
        (record { puuid = task.puuid; last_visit_ms = deep_visit_ms })
        (fetch_all crc compress encode_to_vec today day_files own now_ms matches
          (update_brake own now_ms r))
        (fetch_all-AllQueued (λ q. q == pid) own now_ms matches (update_brake own now_ms r) k
          (update_brake-AllQueued (λ q. q == pid) own now_ms r h))
  process_player-AllQueued own now_ms pid task (finished matches due) r k h =
      reschedule-AllQueued own due pid (record { puuid = task.puuid; last_visit_ms = now_ms })
        (fetch_all crc compress encode_to_vec today day_files own now_ms matches
          (update_brake own now_ms r))
        (fetch_all-AllQueued (λ q. q == pid) own now_ms matches (update_brake own now_ms r) k
          (update_brake-AllQueued (λ q. q == pid) own now_ms r h))

  expand_from-AllQueued :
      (own : String) (now_ms : ℕ) (page : Option Entries) (r : Region)
      → AllQueued nobody r.store r.frontier
      → AllQueued nobody
          (expand_from own now_ms page r).1.store
          (expand_from own now_ms page r).1.frontier
  expand_from-AllQueued own now_ms none r h = h
  expand_from-AllQueued own now_ms (some []) r h = h
  expand_from-AllQueued own now_ms (some (e ∷ es)) r h =
      enroll-AllQueued nobody own (e ∷ es) cohort_src_ladder now_ms r h

  maybe_expand-AllQueued :
      (own : String) (now_ms : ℕ) (pages : ℕ → ℕ → Option Entries) (r : Region)
      → AllQueued nobody r.store r.frontier
      → AllQueued nobody
          (maybe_expand own now_ms pages r).1.store
          (maybe_expand own now_ms pages r).1.frontier
  unfolding maybe_expand
  maybe_expand-AllQueued own now_ms pages r h = by_brake (update_brake own now_ms r).braked
    where
      by_brake :
          (b : Bool)
          → AllQueued nobody
              (if◌then◌else◌ {A = Bool × Region} b
                (false, update_brake own now_ms r)
                (expand_from own now_ms
                  (pages
                    ((update_brake own now_ms r).expand_cursor / 10000)
                    (cursor_page (update_brake own now_ms r).expand_cursor))
                  (update_brake own now_ms r))).1.store
              (if◌then◌else◌ {A = Bool × Region} b
                (false, update_brake own now_ms r)
                (expand_from own now_ms
                  (pages
                    ((update_brake own now_ms r).expand_cursor / 10000)
                    (cursor_page (update_brake own now_ms r).expand_cursor))
                  (update_brake own now_ms r))).1.frontier
      by_brake true = update_brake-AllQueued nobody own now_ms r h
      by_brake false =
          expand_from-AllQueued own now_ms _ _ (update_brake-AllQueued nobody own now_ms r h)

  -- Who has a task still has it after a pop, but for the player whose task is taken.
  popped-AllQueued :
      (s : Store) (f : Frontier) (k : Slot) (task : FrontierTask)
      → Has (k, task) f.f
      → AllQueued nobody s f
      → AllQueued (λ q. q == k.player_id) s (take_row f (k, task)).1
  popped-AllQueued s f k task has h =
      let here : slot_of k.player_id f.f ≡ some k = Has-slot_of k task f.f h.tables.once has in
      record {
        tables = take_row-IsFrontier f k task h.tables here;
        tasks = λ q m other.
            ap is_there (removed-others k f h.tables here q (λ e. ground (arith, e, other)))
            ∙ h.tasks q m refl;
      }

  taken-AllQueued :
      (own : String) (now_ms : ℕ) (visits : ℕ → Visit crc compress encode_to_vec today day_files)
      (pid : ℕ) (task : FrontierTask) (r : Region) (b : Bool)
      → is_cohort r.store pid ≡ b
      → AllSampled (visits pid)
      → AllQueued (λ q. q == pid) r.store r.frontier
      → AllQueued nobody
          (if b
            then process_player crc compress encode_to_vec today day_files own now_ms pid task
                (visits pid)
                r
            else r).store
          (if b
            then process_player crc compress encode_to_vec today day_files own now_ms pid task
                (visits pid)
                r
            else r).frontier
  taken-AllQueued own now_ms visits pid task r true e k h =
      process_player-AllQueued own now_ms pid task (visits pid) r k h
  taken-AllQueued own now_ms visits pid task r false e k h = record {
    tables = h.tables;
    tasks = λ q m free. h.tasks q m (differs q m (q == pid) refl);
  }
    where
      differs : (q : ℕ) → is_cohort r.store q ≡ true → (b : Bool) → (q == pid) ≡ b → b ≡ false
      differs q m false t = refl
      differs q m true t =
          let same : q ≡ pid = ground (arith, t) in
          let member : is_cohort r.store pid ≡ true = ap (is_cohort r.store) (sym same) ∙ m in
          cc (member, e)

  -- Where zstd compresses whatever it is given and no raw sample fails to be saved: if the tables of
  -- the queue agree and every member of the cohort has a row in the table of tasks, so it is after a
  -- turn of the loop, whether it expands the cohort or takes up a player, and however the player's
  -- visit ends.
  pub pass-AllQueued :
      (own : String) (now_ms : ℕ) (visits : ℕ → Visit crc compress encode_to_vec today day_files)
      (pages : ℕ → ℕ → Option Entries) (r : Region)
      → ((pid : ℕ) → AllSampled (visits pid))
      → AllQueued nobody r.store r.frontier
      → AllQueued nobody
          (pass crc compress encode_to_vec today day_files own now_ms visits pages r).store
          (pass crc compress encode_to_vec today day_files own now_ms visits pages r).frontier
  unfolding pass frontier_pop_due
  pass-AllQueued own now_ms visits pages r k h =
      by_first (first_in own bucket_priority now_ms r.frontier.f)
        (first_in own bucket_other now_ms r.frontier.f)
        (first_in-first own bucket_priority now_ms r.frontier.f)
        (first_in-first own bucket_other now_ms r.frontier.f)
    where
      take :
          (s : Slot) (task : FrontierTask)
          → Has (s, task) r.frontier.f
          → AllQueued nobody
              (handle_task crc compress encode_to_vec today day_files own now_ms visits pages
                (take_row r.frontier (s, task)).0
                (record r { frontier = (take_row r.frontier (s, task)).1 })).store
              (handle_task crc compress encode_to_vec today day_files own now_ms visits pages
                (take_row r.frontier (s, task)).0
                (record r { frontier = (take_row r.frontier (s, task)).1 })).frontier
      take s task has =
          taken-AllQueued own now_ms visits s.player_id task
            (record r { frontier = (take_row r.frontier (s, task)).1 })
            (is_cohort r.store s.player_id) refl (k s.player_id)
            (popped-AllQueued r.store r.frontier s task has h)

      by_first :
          (a b : Option (Slot × FrontierTask))
          → FirstOrNone own bucket_priority now_ms r.frontier.f a
          → FirstOrNone own bucket_other now_ms r.frontier.f b
          → AllQueued nobody
              (handle_task crc compress encode_to_vec today day_files own now_ms visits pages
                (or_later r.frontier a b).0
                (record r { frontier = (or_later r.frontier a b).1 })).store
              (handle_task crc compress encode_to_vec today day_files own now_ms visits pages
                (or_later r.frontier a b).0
                (record r { frontier = (or_later r.frontier a b).1 })).frontier
      by_first (some (s, task)) b fa fb = take s task fa.has
      by_first none (some (s, task)) fa fb = take s task fb.has
      by_first none none fa fb = maybe_expand-AllQueued own now_ms pages r h
