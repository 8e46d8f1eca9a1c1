-- ===== src/Lib.antt =====
-- A verification library for tr-infer, an inference server in Rust. It models the prefix cache
-- (crates/tr-cache: objects stored under the hash of the prompt that leads to them), the digest of
-- the pack format (crates/tr-format), the sequences that are resident at the same time, with their
-- pages of key/value rows (crates/tr-model), and the server's use of the cache (crates/tr-infer).
--
-- The parts and their files:
-- - Bytes: little-endian numbers and comparisons of byte strings, which the crates share.
-- - Format/Sha256: `sha256` of crates/tr-format/src/manifest.rs. The loop that pads runs on fuel: 64
--   rounds are enough.
-- - Cache/Role: crates/tr-cache/src/role.rs. Roles, spans, and `chunk_spans`. A span's `end` is
--   called `stop`. The inner loop runs on fuel: a round takes at least one position, so one more
--   than the number of positions is enough.
-- - Cache/Policy: crates/tr-cache/src/policy.rs. The policy of each role.
-- - Cache/Key: crates/tr-cache/src/key.rs. `PrefixKey` as a list of bytes, `hex` and `parse`, the
--   root key of a model and the hash chain `prefix_keys`. Slicing a text inside a character panics,
--   which is an outcome of `parse`.
-- - Cache/Buf: crates/tr-cache/src/buf.rs. An aligned buffer as the bytes of its allocation.
-- - Cache/Object: crates/tr-cache/src/object.rs. The metadata of objects, their names, and their
--   headers. `serde_json` is a pair of parameters.
-- - Cache/Backend: the trait in crates/tr-cache/src/backend.rs, a record of operations on a state;
--   Backend/Memory is `MemBackend`.
-- - Cache/Index: crates/tr-cache/src/cache.rs. The index of all objects, the eviction order, and
--   the operations on them alone: `insert_entry`, `touch`, `remove`, `forget`, `expire_idle`,
--   `evict_to_budget`, `check`, and in Index/Stats `stats`. The `HashMap` is an association list,
--   the `BTreeMap` a sorted one. Eviction runs on fuel, one more than the length of the order, since
--   a round shortens it.
-- - Cache/Restore: `best_restore` of crates/tr-cache/src/cache.rs, with both of its loops.
-- - Cache/Store: `insert` of crates/tr-cache/src/cache.rs, which composes the operations of the
--   index; Store/Backed has `put`, `get` and `delete_all` over any backend, Store/Open `open_with`,
--   Store/Flush `flush` and `clear`. The JSON of the index file is a pair of parameters.
-- - Model/Sequence: crates/tr-model/src/sequence.rs, for a model on which `enable_sequences` has
--   succeeded. Model/Sequence.antt has the slots, `allocate_sequence`, `release_sequence` and
--   `fork_sequence`, and the parts of the tiles' states that they touch (state.rs); PagePool is
--   `Pages`; Prepare is `prepare_sequence`; Batch is `forward_batch` before and after the workers
--   run. What a page holds, in all layers of all tiles, is of a parameter type. A reference count
--   wraps around at 2^64; the number of pages that a batch needs is not bounded.
--   The theorems stand in Lifecycle, Fork, Preparation, Admit and Rows.
-- - Server: crates/tr-infer/src/server/prefix_cache.rs. Server/Staging is `Staging`, with one round
--   of the loop of `take` as a function: a blocking call that gets no buffer waits for a `give` and
--   starts the next round. Server/Prefix has `persist_cut`, `extend_keys` and `snapshot_points`;
--   Server/Restore `restore`, with the imports of the model as an interface, `Engine`; Server/Save
--   `save` (as a release build runs it, without its assertions) and `snapshot_now`, whose jobs for the writer are a list, and for which the answers of
--   the index are numbered, since the writer changes it meanwhile; Server/Ready
--   `save_ready`, with what each step meets as an argument; Server/Writer one round of
--   `writer_loop`. The leases of buffers within `restore` and `save` are left out.
-- - Model/Spec: `Speculator::round` of crates/tr-model/src/spec.rs. The sampler, with the arithmetic of
--   its probabilities, and the runs of the model are interfaces.
-- - Server/Generate: the loop of `run_job` in crates/tr-infer/src/server/engine.rs that generates
--   tokens; the emitter of text is an interface. It runs on fuel: each turn emits a token, so one turn
--   more than the limit of tokens is enough. Server/Reserve is `continuous_pages` of that file.
-- - Server/Continuous: crates/tr-infer/src/server/continuous.rs. Continuous.antt has the requests, the
--   groups and the dropping of cancelled requests; Continuous/Admit the loop that admits requests;
--   Continuous/Schedule the choice of the rows of a batch.
-- - Cache/Tests, Format/Tests, Model/Tests, Server/Tests: instances of the theorems.
-- - Prelude: tests, words, lists, association lists and sorted maps.
--
-- How they interact: the keys of a prompt (Key), which are digests (Sha256), address the objects
-- (Object) that the index (Index) holds; `best_restore` (Restore) looks them up and marks what it
-- returns as used; `insert` (Store) adds an object and returns the names of what had to go. The tier
-- of an object in the eviction order comes from its role's policy (Policy). `save` (Server/Save)
-- cuts the text of a request into chunks (Role) and hands them to the writer (Server/Writer), which
-- inserts them (Store); `restore` (Server/Restore) reads what `best_restore` finds.
-- Admission (Server/Continuous) reserves pages (Server/Reserve) and allocates sequences
-- (Model/Sequence); scheduling reads their positions and stops at the snapshot points (Server/Prefix);
-- generation calls the rounds of Model/Spec.
--
-- Integers are natural numbers; where `u64` and `usize` may wrap, which the release profile lets
-- them, the wrap-around modulo 2^64 is written out. Readings of the clock are arguments. A panic is
-- `none` or an outcome of its own.
--
-- Not modelled: crates/tr-cache/src/fs.rs, whose work is done by the file system; of
-- crates/tr-model/src/sequence.rs the sizes and allocations of `enable_sequences`, `with_sequence`,
-- and the work of the workers; of crates/tr-infer/src/server/prefix_cache.rs the set-up,
-- `restore_async`, `warm_staging`, and the threads; of engine.rs and continuous.rs there the emitter,
-- the prefill loop, the ends of groups and the channels; and the other parts: the kernels, the
-- execution of the model, the rest of the pack format, system topology, and the rest of the server.
pub mod Prelude
pub mod Bytes
pub mod Format
pub mod Cache
pub mod Model
pub mod Server
