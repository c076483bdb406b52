-- ===== src/Lib.antt =====
-- Telemetry threat engine: a model of the Rust engine under engine/src.
--
-- A simulator makes batches of network events (engine/src/ingestion.rs, engine/src/models.rs). A
-- producer routes each event to the bounded queue of one worker (engine/src/queue.rs). A worker
-- gives every event to three detectors: byte patterns in the payload
-- (engine/src/detection/signature.rs), counts and distinct ports of each source within a window
-- (engine/src/detection/anomaly.rs), and sequences of conditions of each source
-- (engine/src/detection/cep.rs). Their alerts go to a bounded store (engine/src/pipeline.rs), which
-- the HTTP interface reads (engine/src/api.rs).
--
-- The modules:
--   Base        numbers, lists, association lists, bits, and texts as lists of bytes
--   Models      engine/src/models.rs: `NetworkEvent`, `Alert`, `is_syn`, `flow_key`, `shard_key`,
--               `ip_to_string`; Address and Keys are about the last four
--   Queue       engine/src/queue.rs: `MpmcQueue` with `new`, `push` and `pop`. Fifo is what a caller
--               expects, Inv the representation invariant, Push and Pop the calls on every branch,
--               Refine puts them together, Single is about a capacity of one. Threads has the same
--               code as atomic steps of many threads: `Move` is one step of one thread, `Step` and
--               `Reach` the interleavings; Lap is the arithmetic of the tickets, Inv, Family and Facts
--               the invariant, ClaimPush, ClaimPop, Touch, Held, Moves and Runs its preservation, and
--               Safety, Refusal, Rest and Alone what follows
--   Detection   engine/src/detection: CountMin, HyperLogLog and Anomaly for anomaly.rs, Cep for
--               cep.rs, Signature for signature.rs; their children hold the proofs. Hasher, Float
--               and Utf8 are what these files call
--   Ingestion   engine/src/ingestion.rs: `Simulator`, `now_ms`, `benign_event` and `next_batch`, with a
--               function for each attack of a batch; Shapes says what the attacks are, Loops, Events
--               and Batches what the code makes, Sizes how much, Attacks and Sequences what the
--               detectors make of it
--   Pipeline    engine/src/pipeline.rs: `AppState`, `record_alert`, the producer's routing (`route`) and
--               a worker's step (`handle`); Store, Routing and Handling are about these. Engine is the
--               producer and all workers under a schedule: Plan is what they promise, Contents,
--               Refines, Arrive, Wake and Refine relate the two, Order, Accepted and Runs follow the
--               events, Room is about drops; Handled says what `handle` calls, Watch is what a worker's
--               anomaly detector keeps up during a run, Guards gives two such conditions, Invariant is
--               the induction over runs, Everywhere, Sized, Sources and Alarm follow the SYNs of one
--               source through a run, Tallies and Payloads the events with a byte pattern
--   Main        engine/src/main.rs: the constants, and the first batch through the whole engine;
--               Program is the running program (the loop of `spawn_producer` over the batches of the
--               simulator, and the workers), Came and Serves are about its runs, Exploits about what
--               becomes of the simulator's exploits
--   Api         engine/src/api.rs: `require_auth`, `login`, and the handlers of the routes; Router is
--               `build_router` and Access what it tells whom, Answers and Listing are about the
--               handlers, Floods and Payloads about the way from the producer to `GET /alerts`
--   Tests       concrete code for the parameters, and the theorems at concrete inputs
--
-- How code is modelled. A method that changes its object takes and returns the object's record. A
-- panic (an index out of range, a remainder by zero, a failed assertion) is `none`, or `panic` for
-- the queue. The numbers of alerts wrap at 2^64, sums of `usize` too, cells of the Count-Min sketch
-- stop at the largest u32. A `HashMap` by source is an association list, a `HashSet` a list. The
-- atomic counter of the alert numbers is a field. An `Instant` or `Duration` is a number of
-- nanoseconds; a reading of the clock is an argument.
--
-- Parameters, for code of other crates and of the standard library: `FxHasher` (a u64 for a key, no
-- law about collisions), `Float64` (no law), `AhoCorasick` (the overlapping search reports a pattern
-- exactly if it stands in the text), `Environment` (the random numbers, which lie in the range that
-- is asked for, and the readings of the system clock), `Axum` (its dispatch calls only routes of the
-- router, and the one for the path and the method if there is just one; its extractors of a body and
-- of a query have no law).
--
-- Bounds and fuel. `push` and `pop` take a list with an entry for each round of the loop that says
-- whether the compare-exchange of that round fails spuriously; one entry that does not is enough for
-- one caller at a time. In Threads a step has no fuel; the number of steps bounds the counters, and
-- a call that runs alone returns within the steps that its theorem names. The queue's counters stay
-- below 2^63, where the signed difference is exact. `is_power_of_two` halves 64 times and
-- `leading_zeros` 64 times, for 64 bits; a decimal number is printed with fuel for 20 digits, as
-- many as a u64 has.
--
-- Not modelled: reorderings that a weak memory model allows beyond the interleavings of Threads; the
-- steps inside a call of the queue while the whole engine runs (an event routed and an event handled
-- are each one step of Engine, the lock of the alert store included, and so is a batch of the simulator
-- in Program); sleeping, logging, the CORS layer and the server of engine/src/api.rs and
-- engine/src/main.rs, which are calls of libraries; the C code of
-- engine/ebpf-reference, the dashboard, the scripts of analysis and the deployment files, which are no
-- part of the engine.
pub mod Base
pub mod Models
pub mod Queue
pub mod Detection
pub mod Ingestion
pub mod Pipeline
pub mod Api
pub mod Main
pub mod Tests
