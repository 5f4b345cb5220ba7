-- ===== src/Lib.antt =====
-- sourced_rust: event-sourced entities and aggregates, repositories with optimistic concurrency, read
-- models, snapshots, and an outbox with its worker.
--
-- An entity (src/entity/entity.rs) collects event records. A repository stores the records of each
-- entity and rejects a commit that does not start from the stored version. An aggregate is a domain
-- struct around an entity: `hydrate` replays the records through its methods, after the upcasters have
-- brought old payloads up to date. The snapshot repository skips the records before a snapshot. An
-- outbox message is an aggregate of the library itself: it is committed beside a domain entity, and a
-- worker claims, publishes and completes it. The queued repository holds a lock on each entity from its
-- read to its commit, and the queued store one on each read model. Read models are versioned values
-- under text keys. A service sends named commands to handlers on a repository.
--
-- Files, and what they model:
--   Prelude: the names and lemmas that the rest shares; Prelude/Results has `Outcome`, what a Rust
--     call does (Ok, Err, panic, or no return), and `RwLock`; Prelude/HashMap a map as a list.
--   Bitcode: the crate bitcode as a parameter, a codec for each type that is serialized.
--   Entity: src/entity/entity.rs. Entity/Record: event_record.rs. Entity/Upcaster: upcaster.rs.
--     Entity/Commands, WellFormed and History: the methods as commands, their invariant, their log.
--   Repository: the traits of src/repository/ as a record of operations over a state, and the errors
--     of src/repository/error.rs, src/lock/error.rs and src/read_model/mod.rs; Display: their texts.
--   HashMapRepo: src/hashmap_repo/repository.rs. Committing, Numbering, Faults and Finding prove;
--     Traits gives the implementation of the traits.
--   ReadModel: src/read_model/mod.rs and in_memory.rs. SnapshotStore: src/snapshot/in_memory.rs.
--   Aggregate: src/aggregate/aggregate.rs. Snapshot: src/snapshot/snapshottable.rs and repository.rs;
--     OutboxCommit: its commit with a message.
--   Outbox: src/outbox/message.rs and commit.rs, with what the macros `digest` and `aggregate!` of
--     sourced_rust_macros/src/lib.rs generate for it. Outbox/Machine: the statuses.
--     Outbox/Recording and Replay: the events and their replay.
--   Bus: the event and the traits of src/bus/publisher.rs and sender.rs. Bus/InMemoryQueue:
--     in_memory_queue.rs; Receiving, Subscribers and Listeners prove, FanOut, Moving and Competing help;
--     Traits gives the queue as a publisher.
--   OutboxWorker: src/outbox_worker/repository_ext.rs; OutboxWorker/Worker: worker.rs;
--     OutboxWorker/Thread: thread.rs. Processing, Moves, Turns and Draining prove; Contents says
--     what a message carries and how a bus is called for it; Readable, Entries, Taking, Tracking, Claims,
--     Claiming, Replacing, Finishing, Settling, Delivering and Drains help.
--   Lock: src/lock/in_memory.rs. QueuedRepo: src/queued_repo/repository.rs; QueuedRepo/Locking: its
--     loops over locks; Aggregates: peek and abort of the aggregate repositories over it. TextOrder,
--     Order, Holding and Releasing prove. Callers: callers whose turns interleave. Exclusion, Progress,
--     Returning and Turns prove.
--   QueuedModels: src/read_model/queued.rs, over ReadModel/Stores, the trait of src/read_model/store.rs;
--     QueuedModels/Locking: its helpers. Keys, Reading, Releasing and Finding prove.
--   Microsvc: src/microsvc/service.rs, context.rs and error.rs; Microsvc/Sessions: session.rs;
--     Microsvc/Transports: requests, http.rs and grpc.rs; Microsvc/Threads: the threads of service.rs.
--     Routing, Answers, Variables, Serving and Draining prove.
--   CommitBuilder: src/commit_builder/mod.rs. Writing and Settling prove.
--   Emitter: src/emitter/entity_ext.rs and src/entity/local_event.rs. Emitting proves.
--   Macros: sourced_rust_macros/src/lib.rs, the generated code as data; Macros/Arguments: its parsers;
--     Macros/Sourced: #[sourced]; Macros/Running: what generated code does. Reading, Agreement,
--     Recording and Replaying prove; Describing spells the events of an impl block for `aggregate!`. Macros/Snapshots: sourced_rust_macros/src/snapshot.rs;
--     Macros/Copying: what its code does. Restoring proves.
--   Tests: concrete inputs, with a lossless codec for the outbox events.
--
-- Conventions. A method on `&mut self` returns the new value; a call on a shared handle takes and
-- returns the state behind it. `now` is the reading of the system clock, one for each call; times are
-- nanoseconds since the epoch without the platform's upper bound. Counters of type u64 and u32 that
-- the source increments without a bound wrap around as in a release build where a property is about
-- them. A thread runs its loop until it sees a signal; the number of its turns is an argument. The order
-- in which a `HashMap` iterates is the order of its list, so what is proved holds in every order.
-- `fuel` bounds the loop of the upcasters, which has no bound in the source; fuel above the largest
-- version that an upcaster produces is enough when every upcaster goes to a later version.
--
-- Third-party code is a parameter: the crate bitcode as codecs (`IsLossless` is what it documents),
-- serde_json as two functions of a read model and as the record `Json` of a service, `from_u16` of
-- http, the emitter of event_emitter_rs, a publisher and a bus as records of functions.
--
-- Not modelled: serde on stored entities; the start of the servers, which is glue to axum and tonic; the
-- derive macro ReadModel, and the parsers of the inputs of `aggregate!` and `#[sourced]`, which read
-- nested groups of tokens; the struct Bus of src/bus/bus.rs, which forwards each call to a publisher or a
-- subscriber; and src/repository/gettable.rs with src/entity/committable.rs, which turn shapes of
-- arguments into lists.
pub mod Prelude
pub mod Bitcode
pub mod Entity
pub mod Repository
pub mod ReadModel
pub mod SnapshotStore
pub mod HashMapRepo
pub mod Aggregate
pub mod Snapshot
pub mod Outbox
pub mod Bus
pub mod OutboxWorker
pub mod Lock
pub mod QueuedRepo
pub mod CommitBuilder
pub mod QueuedModels
pub mod Microsvc
pub mod Emitter
pub mod Macros
pub mod Tests
