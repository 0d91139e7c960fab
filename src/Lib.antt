-- ===== src/Lib.antt =====
-- The plugin sglang_qsa_hisparse runs long-context decode with the KV cache on the host: a request
-- prefills on one physical lane, its blocks are copied to the host, and it decodes from a small ring
-- and a hot set. This library models the parts of the plugin that decide who owns what:
--
--   Slots     src/sglang_qsa_hisparse/hisparse/slots.py, `QSAHiSparseSlots`. The state is the record
--             `Slots`; `acquire`, `require`, `staging_slice`, `ring_slice`, `ring_write_location`,
--             `begin_handoff`, `finish_handoff`, `admit_decode`, `drain`, `logical_flush`,
--             `commit_release` and `snapshot` are the methods of these names. `mark_failed` is the
--             assignment by which `fail_graph_replay` of hisparse/runtime.py fails a lease.
--   Image     hisparse/image_identity.py and hisparse/image_request.py: the key that ties a prefix to
--             its images and positions, and the identity of a request.
--   Prefix    hisparse/prefix.py, `HostPrefixCache` with its readers and reservations. `World` adds
--             what the callers hold; prefix_cache.py and runtime.py are such callers.
--   Coordinator  hisparse/coordinator.py: `collect_ready_reqs` on every rank of a tensor-parallel group,
--             with the collectives as the sum and the votes that they return. It uses Slots.
--   Startup   features.py, plugin.py and scope.py of the package, fingerprint.py (`verify`), and
--             hisparse/config.py: what is checked before the plugin acts. Accepts shows that an
--             accepted configuration fits Slots.
--   Patching  patching.py: the overlap of dotted names (Names), the conflicts that `collect` refuses
--             (Collect), and `verify_final` (Final). A dotted name is the list of its parts.
--   Runtime   hisparse/runtime.py, `release`, `after_release` and `after_logical_flush`, over Slots: the
--             queue of releases that wait for the allocator's frees.
--   Layout    hisparse/layout.py: `pack_c4` and `unpack_index` on rows.
--   Single    hisparse/single_request.py, the serial runtime with one lease: `begin_batch`, `handoff`
--             with `make_state`, `after_store`, `finish_selected` with its oracle `check_selected`,
--             `release` and `after_release`. Rows are a parameter; it uses `pack_c4` of Layout, and
--             `stage_short_prefix` is `stage_hot`.
--   Restore   hisparse/prefix_cache.py, `QSAHostPrefixCache` over Prefix, Image and Runtime: the match of
--             a host prefix (Hits), its preparation and restore, `rollback_prefix_for_extend`
--             (Drain, Rollback), `_drop_host_prefixes` (State). A handle stands for its request.
--   Launch    launch.py of the package: the checks of the records (Records), the preparation
--             (Preflight), and the life of the server process (Process): `launch`, `_wait_until_ready`,
--             `_supervise`, `stop_server`, and the exit status of `main`.
--   Prelude   lists, words, dicts and outcomes that these share.
--
-- A method that raises is an `Outcome`: it has the state at the time of the error. A history is a list
-- of calls on a new object, of any callers in any order; a call that raises is part of it.
--
-- Numbers are natural numbers: indices, sizes and generations below zero are not representable, and
-- subtraction is used only where the code has checked the order. Python's integers do not overflow.
-- A byte string of tokens is its identity and its eight-byte words, since every such string is made by
-- `token_bytes`. A tensor is its storage, its bytes, its shape and whether it is on the host. The hash
-- is a parameter; where a theorem needs it free of collisions, that is a hypothesis. So are the
-- environment, the server's arguments, the files that are fingerprinted, and what SGLang answers.
-- The loop of `reserve` runs on fuel, one more than the entries: each round evicts one entry, and the
-- theorem on `reserve` says that it never ends for want of fuel. The loop of `after_logical_flush` has
-- the length of its queue as fuel: each round that goes on takes one lease off the queue.
--
-- The loops of Launch run on fuel: no loop takes more rounds than the fuel. `wait_health` and
-- `supervise` look again and again, `wait_exit` waits in ticks of a tenth of a second, and so does
-- `wait_reap`, the last `server.wait()` of `stop_server`, which blocks until the server has exited; the
-- theorem that `launch` returns says which fuel is enough. `copy_chunks` of Single has the number of
-- tokens as fuel, and each round copies one at least.
--
-- SGLang's store kernel is a parameter of Single that writes one row. Serving has the forward passes of
-- a request: `begin_batch`, then for each layer the kernel's write at `ring_loc` and `after_store`.
--
-- Of errors outside the code these are not represented: a record file of Launch that holds JSON which is
-- not an object; a synchronization that fails in `release` of Single or before the rollback of Restore;
-- and a free of the allocator that fails in that rollback.
--
-- In `release` of Runtime the two writes of the event log succeed, and in Restore each of them may
-- fail; in `after_release` each write may fail.
--
-- Not modelled: of hisparse/prefix_cache.py the capture that publishes a checkpoint; of
-- hisparse/single_request.py the load kernel, the checks at the startup and the captures; of launch.py
-- the parser's options, the printed lines and the writing of the dist-info; the rest of
-- hisparse/runtime.py and of hisparse/coordinator.py, the steps of `activate` and the comparison with
-- manifest.json in patching.py, and the parsing of definitions in fingerprint.py. Neither are the
-- CUDA and Triton kernels with their launchers, the patches of SGLang that wire these parts into its
-- scheduler and pools, the service tools, and the tests. They are device code, calls of SGLang, or input
-- and output.
pub mod Prelude
pub mod Slots
pub mod Image
pub mod Prefix
pub mod Coordinator
pub mod Startup
pub mod Patching
pub mod Runtime
pub mod Launch
pub mod Layout
pub mod Single
pub mod Restore
