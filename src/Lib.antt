-- ===== src/Lib.antt =====
-- The clipboard archive daemon, rldyour-clipboardd (daemon/src): what it records of the clipboard, how
-- it keeps that in a SQLite index and a directory of content-addressed files, and how a connection
-- streams content into it.
--
-- Parts, and the files that model them:
-- - Prelude, Prelude/*: shared names, lists, texts as lists of code points, sorting.
-- - Kind, Kind/Preview, Kind/Offers: daemon/src/kind.rs. `classify`, `rank`, `preview`, `recordable`
--   and the tests they use, under the source's names.
-- - Proto: daemon/src/proto.rs. The frames of both directions, the roles, the limits.
-- - Config: daemon/src/config.rs (`parse_budget`, `parse_retention`) and the test of `validate_mime`.
-- - Index: daemon/src/store/index.rs. Index/Tables has the four tables as lists of rows;
--   Index/Refs counts references and releases them (`reference`, `release_entry`); Index/Changes has
--   the statements that change the tables (`insert`, `touch`, `set_pinned`, `remove`, `clear`,
--   `evict_to`, `expire_before`), Index/Queries and Index/Listing those that read them (`summary`,
--   `locate`, `list` and the others). The other files below Index are proofs: Consistent has the
--   invariant `IsConsistent`, and Removal, Eviction, Expiry, Insertion, Marks, Paging and Prefixes
--   have what each operation does.
-- - Io: the buffered readers that daemon/src/session.rs reads from, and `drain`. A reader is the run
--   of buffers that it will show, so a theorem over every run covers every way the bytes arrive.
-- - Blobs, Blobs/Pieces, Blobs/Copying: daemon/src/store/blobs.rs. Files under their digests, leases, the copy
--   loop `absorb`, publication and removal.
-- - Store: daemon/src/store/mod.rs. `accept` in Store, `sweep` and `discard` in Store/Sweeping,
--   `identity` and `derive` in Store/Deriving (Store/Identity has a proof about the first), `commit` in Store/Recording, removal, clearing,
--   pinning and expiry in Store/Keeping, which also has `expire` of daemon/src/maintenance.rs.
--   Store/Thumb is `make` of daemon/src/store/thumb.rs, the function that `derive` takes as
--   `thumb_of_image`.
--   Store/Incoming is `Incoming`, Store/Serving has `transcode` and `thumbnail`, Store/Startup
--   `reconcile`, over what the directories hold, with the errors of a removal. Store/Sound and
--   the files below it are proofs: what each operation does to the files that the index refers to and to
--   those that are leased. Store/Refinement has what a client can fetch, as a map.
-- - Session: daemon/src/session.rs. `read_frame` in Session/Frames, `whole_part` in Session/Parts,
--   `chunked_part` in Session/Chunks, `begin`, `part` and `abort` in Session/Drafts, and the reply to
--   `list` in Session/Pages. Session/Conversation has the world of a connection (its session, the
--   store, the stream, the bytes sent, the events caused) and its larger requests,
--   Session/Conversation/Requests the others with `perform`, `greet` and `run`; Answers, Keeping and
--   Safety beside it are proofs.
-- - Outbox: daemon/src/outbox.rs. `send` and `send_blob` in Outbox, the watchers with their queues in
--   Outbox/Watchers; Outbox/Ordering and Outbox/Rounds have what a watcher is sent, as a step relation, in which the
--   worker takes an event and sends it in two steps, and a full queue drops the watcher.
-- - Capture: daemon/src/capture/mod.rs, the `Recorder`. Capture/Windows has the conversions of
--   daemon/src/capture/windows.rs and the order in which it reads the formats; Capture/Secrets is about
--   content that is marked as secret.
-- - Holds: what is under way between two holds of the lock: the second hold of a commit, and the ends of
--   leases and the sweeps behind a hold.
-- - System: the connections, the commits under way, the recorder and maintenance over one store, as a step
--   relation (the threads of daemon/src/server.rs), and in System/Safety what every state that it
--   reaches has. Each hold of the lock on the index is a step there, and so is each end of a lease:
--   eviction, removal, clearing, a batch of expiry and every sweep come in any order with what the
--   other connections do. A request that no one comes between is a step too (`perform`), and
--   System/Composed shows what the holds come to where they are uninterrupted.
-- - Examples: runs of the model on concrete data.
--
-- A connection reads frames (Session) and streams parts into the store (Store over Blobs); a commit
-- records them in the index and makes room; whatever drops rows of the index sweeps the files that
-- it orphaned, except those that a lease of an open draft holds. The lock on the index makes each
-- hold of it one step: `commit` takes an argument `meanwhile`, what other connections do to the
-- store between its two holds, and in System every hold is a step of its own.
--
-- Numbers: ids, times, sizes and counts are natural numbers. The source keeps them in i64 and u64;
-- the budget is never negative (Config), times are seconds since 1970, and a cutoff below 0 selects
-- nothing, just as 0 does. `saturating_add` stops at the i64 limit, and the sums that a statement
-- takes are asked to fit an i64 where a theorem needs it.
--
-- Loops: `evict_loop` runs on fuel, one more than the entries, and each round drops an entry;
-- `absorb_from` runs on the bytes that are still wanted, and each round takes one at least. The
-- proofs of the theorems below show that neither runs out. `chunk_loop` runs on one more than the bytes
-- of the stream, and each round takes a newline; `run` is given its fuel, one frame a round. The other
-- loops are structural.
--
-- Parameters: SHA-256 (`digest_of`), `String::from_utf8` and its lossy form, `char::is_alphanumeric`,
-- FTS5's matching (`matches`), the answers of the filesystem to a write and to a sync, and the image
-- crate. Nothing is assumed of them but in the hypotheses of a theorem.
--
-- Not modelled: JSON (serde), failures of SQLite other than a violated constraint, failures to
-- open, to sync or to rename the temporary of a blob (`Blobs::writer`, `Writer::finish`; so neither
-- `finish` nor `close_writer` nor `incoming` fails), to unlink a file but in `reconcile`, the rest of
-- startup (`open_with_policy`), the image crate behind `write_bmp` and `decode`, sockets and threads
-- (daemon/src/server.rs, daemon/src/net.rs), the file access of daemon/src/storage_fs, the calls of the platforms' clipboards (daemon/src/capture/x11.rs,
-- daemon/src/capture/macos.rs and the rest of daemon/src/capture/windows.rs), and everything outside
-- daemon/src.
pub mod Prelude
pub mod Config
pub mod Blobs
pub mod Kind
pub mod Proto
pub mod Index
pub mod Io
pub mod Store
pub mod Session
pub mod Outbox
pub mod Capture
pub mod Holds
pub mod System
mod Examples
