-- ===== src/Items.antt =====
-- crates/wr-common/src/items.rs: the rows of the tables, the one parser of the `Counters` item, and
-- the position of a pre-queue registration.
pub mod Attributes
pub mod Counters
pub mod Shards
pub mod Printed
pub mod Resolve
