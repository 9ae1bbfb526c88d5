-- ===== src/Admin/Live.antt =====
-- The live ports of the admin service: `DynamoStore` of crates/admin/src/dynamo.rs over the event's
-- `Counters` item, which exists, and `KvsStore` of crates/admin/src/edge.rs over the edge store's
-- one document, which is read back as it was written, and `SchedulerStore` of scheduler.rs. Between two calls of a handler others act,
-- and a call may fail before or after it took effect: the world holds what happens at each call.
pub mod World
pub mod Table
pub mod Kvs
pub mod Scheduler
pub mod Triples
pub mod Loading
pub mod Seen
pub mod Attempt
pub mod Atomic
pub mod Windows
pub mod FailOpen
pub mod Start
pub mod Debounce
pub mod Routine
pub mod Apart
pub mod Opened
pub mod Others
pub mod Guards
