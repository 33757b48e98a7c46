-- ===== src/Lib.antt =====
-- The request coordinator, the http client with its cookies, the file cache and the service runtime
-- of strawberry_background. In the coordinator, requests enter a bounded priority queue, the
-- registered runners are asked for their status, a discover chooses a free runner for the category
-- of a request, and the runner submits it to its own code, with retries. The runtime makes the
-- services of a configuration and passes calls on to them.
--
-- Parts, by module and by source:
-- Request: src/domain/models/coordinator_models.rs, the data and its orders (`request_cmp` is
--   `Ord for Request`), with the traits of src/domain/traits/coordinator_traits.rs as records or
--   parameters.
-- BlockingHeap: src/utils/blocking_heap.rs. `BinaryHeap` is an interface with what the standard
--   library documents; `list_heap` meets it. Threads is the history of several threads.
-- Registry: src/superstructure/coordinator/registry.rs, one function per method. Hash maps are
--   the interface `HashMap` of Prelude.Map, which leaves the order of iteration open; `assoc`
--   meets it.
-- Runner: src/superstructure/coordinator/base.rs, Status for the counting and Retry for the loop
--   that retries.
-- Waiter: src/utils/waiter.rs.
-- Discover: `DefaultRunnerDiscover` of src/superstructure/coordinator/coordinator.rs; it uses the
--   registry and the waiters.
-- Queue, Coordinator, Listening: `DefaultQueuer`, `DefaultCoordinator` with Threads for the loops of
--   its two threads, and
--   `DefaultRunnerWatcher` with `DefaultProgressListenerManager`, of the same file. The queue uses
--   the heap, the discover and the registry.
-- Storage: src/infrastructure/storage/storage_backend.rs and its models; Cache:
--   src/superstructure/file_cache_backend.rs, with the factory; it uses the storage and the store
--   of Rkv, src/rkv/rkv_impl.rs, where the channels are bytes.
-- Url: src/utils/url_component.rs; Endpoint: src/domain/models/http_models.rs; Cookie:
--   src/infrastructure/http/cookie_backend.rs, with File for what is saved and loaded; Client:
--   src/infrastructure/http/reqwest_backend.rs, with Executing for `do_execute` and `execute`, and
--   Executing.Streaming for `execute_stream`. The client builds the URL of an endpoint, and looks up and stores cookies.
-- Progress: src/utils/progress_reader.rs and src/utils/stream_with_callback.rs; Monitor:
--   src/monitor and src/infrastructure/monitor; KeyedLock: src/utils/keyed_rw_lock.rs.
-- Runtime: src/service/service_runtime.rs with the configurations, and Services for its calls; it
--   starts and uses the client, the cookie store, the storage and the file cache.
-- Builders: src/superstructure/coordinator/builder.rs; Ffi: src/adapters/ffi, with Calls for the calls
--   that pass on to the runtime.
-- Tests: concrete inputs.
--
-- State is passed explicitly. A call that waits takes what it finds after each wait as a list, so
-- every interleaving at the waits is covered; a call whose list is used up is still waiting.
-- Locks are held for a whole call, or as the source holds them in the waits. A `usize` or a
-- `Duration` is a natural number; the counter of a runner and that of the retries wrap at 2 ^ 64.
-- The retry loop runs on fuel, one unit for each submission, so one unit more than the retries
-- asked for is enough.
--
-- Parameters: the hasher, what the file system answers and how many bytes of an unflushed write have
-- arrived, the categorizer, the runners' own code,
-- floats and the random jitter; the crates percent_encoding, url, serde_json and reqwest, with what
-- the network answers; new identifiers (uuid) and allocations. An error that carries the text of
-- another keeps that other error. Text is the list of its UTF-8 bytes where it is walked through.
--
-- Not modelled: the setters of the builders (the macro crate generates them), keyed locks that
-- wait for each other, spawning on tokio, the macros, and the interfaces for audio.
pub mod Prelude
pub mod Request
pub mod BlockingHeap
pub mod Registry
pub mod Runner
pub mod Waiter
pub mod Discover
pub mod Listening
pub mod Queue
pub mod Coordinator
pub mod Url
pub mod Endpoint
pub mod Cookie
pub mod Progress
pub mod KeyedLock
pub mod Monitor
pub mod Client
pub mod Runtime
pub mod Ffi
pub mod Rkv
pub mod Builders
pub mod Tests
pub mod Storage
pub mod Cache
