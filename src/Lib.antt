-- ===== src/Lib.antt =====
-- A model of millipede, a web-crawling library, and theorems about it. Paths are from the root of the
-- repository.
--
-- A crawl takes requests from a queue (crates/millipede-storage-memory), lets a pool decide when the next
-- one may start (crates/millipede-core/src/autoscale), runs each request as an attempt, and at its end
-- (crates/millipede-core/src/crawler/engine.rs) gives the lease back to the queue: handled, to be retried,
-- or abandoned.
--
-- Which file models what:
--   Prelude          shared names, lists, texts, association lists, machine words
--   Request          crates/millipede-core/src/request.rs: the request record
--   Errors           crates/millipede-core/src/errors.rs: the classes of errors
--   Storage          crates/millipede-core/src/storage: leases, options, errors
--   Frontier         crates/millipede-storage-memory/src/policy.rs: pending requests, first-in first-out or by
--                    rotation over the hosts
--   MemoryQueue      crates/millipede-storage-memory/src/queue.rs: deduplication, leases, completion
--   FsQueue          crates/millipede-storage-fs/src/queue.rs: the durable queue, its state and its directory
--   BrowserPool      crates/millipede-browser/src/pool.rs: slots, pages and the tasks that hold them
--   Coalesce         crates/millipede-http/src/coalesce.rs: callers that share one request
--   Router           crates/millipede-core/src/router.rs: routes by label and method
--   Engine           crates/millipede-core/src/crawler/engine.rs: Engine.Retry decides on retries,
--                    Engine.Completion is handle_completion with the calls it makes of other parts,
--                    Engine.Dispatch the steps of dispatch_loop
--   Session          crates/millipede-core/src/session.rs: session scores, the session pool, storing and
--                    restoring it
--   Proxies          crates/millipede-core/src/proxy.rs: tiers of proxies, and static rotation
--   Statistics       crates/millipede-core/src/statistics.rs: the counters of a crawl
--   Autoscale.Aimd   crates/millipede-core/src/autoscale/aimd.rs: the concurrency controller
--   Autoscale.DomainLimiter
--                    crates/millipede-core/src/autoscale/rate_limit.rs: delays per host
--   Tests            concrete runs
--
-- Functions keep the names of the methods they model. A method on `&mut self`, or one that holds a mutex
-- from start to end, is a function that returns the new state. A hash map is an association list with
-- one entry for each key, a hash set a list without repetitions, a string its list of code points. Machine
-- integers are natural numbers with their wrap-around or saturation written out; times are numbers of
-- nanoseconds, and the clock is an argument. `Url`, the request's payload, `f32`, the retry strategy and
-- generated `Display` implementations are parameters: their code is in other crates, of the user, or
-- generated by macros.
--
-- The clock is unbounded: `Instant` plus `Duration` past the end of `Instant` panics in the source, and has no
-- counterpart here; only the expiry of a session is checked, against the last date. A retry strategy, a
-- trait object in the source, stands for its two functions at one attempt.
--
-- No function here needs fuel: all of them recurse on their arguments.
--
-- The browser pool is modelled by the blocks that hold its mutex, in any interleaving; the code between two
-- blocks only decides which one comes next. The durable queue's writes succeed or fail as an argument says.
--
-- Not modelled: the serde formats, logging, the async runtime, HTTP and browser drivers, and the rest of
-- the crates' glue.
pub mod Prelude
pub mod Request
pub mod Storage
pub mod Frontier
pub mod MemoryQueue
pub mod Autoscale
pub mod Tests
pub mod Errors
pub mod Engine
pub mod Session
pub mod Proxies
pub mod Statistics
pub mod FsQueue
pub mod BrowserPool
pub mod Coalesce
pub mod Router
