-- ===== src/Lib.antt =====
-- A verification library for lol-crawler, which collects League of Legends matches: a server hands
-- out requests to nodes, the nodes send them to Riot's API under its rate limits, and the server
-- stores the matches in compressed blocks of columns.
--
-- The parts, and the files that model them:
-- - Record: the protobuf messages of crates/server/src/record.rs. A u32 or u64 is a number, an i64
--   an integer, a String its UTF-8 bytes; the ranges of the fields are the predicate `IsRecord`.
-- - Columnar: the block codec of crates/server/src/columnar.rs. Error and Varint hold the errors and
--   `write_varint` and `read_varint_at`; Delta the zigzag code and the deltas; Stream the indices of
--   the streams; Cols and Encode the writers and `encode_record`; Proto the writers of protobuf
--   fields, and `record_bytes`, what prost writes for a record; Readers and Decode the readers and
--   `decode_record`; Payload `encode_payload` and `Manifest::parse`; Block `encode_block` and
--   `decode_block`. `MatchRecord::decode` is prost's, so it is an argument of `encode_block`.
-- - Columnar/Streams and Columnar/RoundTrip carry the proofs about the codec, by the events that the
--   writers append to the streams and the readers take off them.
-- - Registry: the node registry of crates/server/src/registry.rs. The hash of a token is an argument.
-- - Stats: the counters of crates/server/src/stats.rs, with the minute ring in Stats/Ring.
-- - Broker: the fetch broker of crates/server/src/broker.rs. Broker holds the state and `fetch`,
--   Broker/Dispatch `take_jobs`, Broker/Results `complete`, `release`, `abandon` and the audits,
--   Broker/Sweep `sweep`, `shutdown` and `depth`. Broker/Invariant, Broker/Keeps and Broker/Runs are
--   about runs of operations; Broker/Answers, Broker/Caps and Broker/Shutdown about single ones.
--   What an operation does under the lock is one step; `fetch` looks at the shutdown flag before
--   that, so `enqueue` is a step too. The dice of the audits and serde_json's values are arguments;
--   what is sent on the responders is a list in the state. `complete` calls the registry and the
--   counters, whose states the broker's holds.
-- - RateLimit: the limiter of crates/node/src/ratelimit.rs, one turn of the loop in `acquire` at a
--   time. An instant is a number of milliseconds; the pacer's random gap is an argument.
-- - Segment: the segment files of crates/server/src/storage.rs. A file is the list of its bytes. Rows
--   holds `decode_row_block`, Index the index entries, Container the blocks and their readers,
--   Writer `SegmentWriter`, Layout `read_segment_layout`, Recompact `recompact_segment` on the
--   segment, its index and their `.tmp` files. zstd, crc32fast and prost's decoder are arguments.
--   Container/Torn says what a crash can leave at a segment's end.
-- - Frontier: the crawl queue of crates/server/src/storage.rs, `frontier_push` to
--   `frontier_backfill_reset`, on its two tables.
-- - Store: the rest of `Store` there that the crawler works on: Store/Players `assign_player_ids`,
--   Store/Cohort enrolment and adoption, Store/History the progress of stored games, Store/Match
--   `store_match`. A redb table is an association list, its calls succeed.
-- - Crawler: crates/server/src/crawler.rs, a turn of the loop of `run`: the brake, `enroll`,
--   `maybe_expand`, what is done with a fetched match, and how a visit ends. The API's answers, the
--   clock and the next visit's time, which is computed in floating point, are arguments.
-- - Examples: the theorems at concrete inputs.
-- - Prelude: lists, maps, integers, results and Boolean tests that the parts share.
--
-- Loops are structural: over the list that the source iterates, or over a count. `write_loop` and
-- `read_loop` run on ten rounds, as many as a varint of a u64 has bytes of seven bits; the loops over
-- a file or a block run on one round more than it has bytes, and each round takes four bytes at least.
-- A usize has 64 bits. An index out of bounds, where the source would panic, is an
-- error of the model.
--
-- Not modelled: HTTP, tasks and wakeups, logging, redb, zstd and the file system themselves, the
-- desktop window, and for now the conversion of Riot's JSON, the parser of the rate-limit headers,
-- and of crates/server/src/storage.rs `frontier_reconcile`, `commit` and crashes between its steps,
-- the node tables and the raw samples (whether saving one succeeds is an argument), and of
-- crates/server/src/crawler.rs `maybe_seed`, the pages of match lists with the choice of the games
-- to fetch, and the adoption worker.
pub mod Prelude
pub mod Record
pub mod Columnar
pub mod Registry
pub mod Stats
pub mod Broker
pub mod RateLimit
pub mod Examples
pub mod Segment
pub mod Frontier
pub mod Store
pub mod Crawler
