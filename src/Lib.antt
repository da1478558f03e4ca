-- ===== src/Lib.antt =====
-- Decompute: a coordinator that passes OpenAI requests on to workers, each of which owns a model.
--
-- The parts and where they are modelled:
--   Core: crates/decompute-core. Chat messages, tools and tool calls (src/chat.rs), manifests and
--     hardware (src/models.rs). `validate_tool_history` is in Core/History; the protocol of tool
--     calls that it enforces is stated in Core/History/Follows. `serde_json::Value` is the parameter
--     `V`, with the operations of Core/Json.
--   Protocol: crates/protocol. What workers report (src/workers.rs, src/models.rs) and what they are
--     asked (src/requests.rs), with `validate_tools` and `normalize_messages`.
--   Coordinator: crates/coordinator. Registry is src/registry.rs: the state is the map of
--     workers and the map of bindings, and each method is one step, since it holds the lock on the
--     workers throughout, but for `mark_offline`, which is also modelled as two; the clock is an
--     argument. Scheduler is src/scheduler.rs. OpenAi and OpenAi/Response are src/openai.rs. Sse
--     and Forward are src/api.rs: the framing of event streams, and the tasks
--     `forward_worker_stream` and `forward_worker_request`, whose effects are values: the calls on
--     the registry, the events sent and the posts to the worker's cancel route. Api is the routes of
--     src/api.rs that workers call, and the list of models.
--   Worker: crates/worker. State is `WorkerRuntime` of src/state.rs, its counter and its table
--     of active requests; `try_reserve` and `finish_request` are two atomic actions each, the other
--     calls that change it one. Api is src/api.rs, what both handlers do before and after the
--     generation, for a handler that is left alone; Api/Schedule interleaves the atomic actions of all
--     handlers. Leases is the session leases of src/state.rs, one attempt and one drop being one
--     step each. Stream is `generate` and `stream` of src/state.rs, and Stream/Loaded puts
--     them over a loaded model of Sdk; Heartbeat is a round of
--     src/heartbeat.rs, and Heartbeat/Known puts it on the routes of the coordinator.
--   Models: crates/decompute-models/src/lib.rs, the catalog and the resolution of a model to a
--     verified file. Models/Paths has what it uses of `std::path`.
--   Llama: crates/decompute-llama, with the settings and counters of crates/decompute-core/src/cache.rs
--     in Core/Cache. ToolCalls is src/tool_calls.rs and Templates is src/templates.rs. The rest is
--     src/runtime.rs: Session is the model with its cache, its expiry and its eviction; Decode is one
--     inference on a context, from the prompt to the last token; Generate is `generate`, which takes a
--     context out of the cache, or makes one, and puts it back; Chat is `generate_chat`. Engine has
--     what is called of llama.cpp, and the laws that its documentation gives.
--   Sdk: crates/decompute-sdk, the two jobs of the thread that owns a model and the events of a stream.
--   Harness: crates/harness/src/main.rs, the state of the desktop application and its operations.
--   Prelude: the shared types and lemmas: `Result`, texts, maps, sorting, the minimum by a key, bytes
--     and UTF-8. Tests: runs of the theorems at concrete inputs.
--
-- How they interact: the coordinator converts a public request (OpenAi), reserves a worker (Registry
-- by Scheduler), sends it there (Forward), and the worker checks it with the functions of Protocol
-- and Core before it counts it. Forward reports its calls in the vocabulary of Registry/History,
-- where calls of any number of tasks are put in sequence.
--
-- Numbers: a text is the list of its Unicode scalar values, a `Uuid` and an `Instant` are natural
-- numbers. The counter of a worker wraps at 2 ^ 64 as `fetch_sub` does; the counts of the registry
-- stop at 0 as `saturating_sub` does. The loop over the frames of a buffer runs on fuel, as much as
-- the buffer has bytes, which is enough since each frame takes two bytes or more; that over tool calls as much as the text has
-- characters, and the eviction loop as much as the cache has sessions. Maps are
-- association lists with each key once.
--
-- Not modelled: HTTP, JSON and TOML encoding, logging, the command lines, the loading of a model
-- file, threads and channels (a channel is the events it has taken), the waiting for a session lease, the drawing of the desktop application, and reports of progress. The
-- Hugging Face client, the file system and SHA-256 are parameters (the record `Outside` of
-- Models/Resolve), and so are the parsing of stream events and the answers of the network in Forward, and llama.cpp,
-- minijinja and the clock in Llama.
pub mod Prelude
pub mod Core
pub mod Protocol
pub mod Coordinator
pub mod Worker
pub mod Models
pub mod Llama
pub mod Sdk
pub mod Harness
pub mod Tests
