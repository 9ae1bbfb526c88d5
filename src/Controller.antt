-- ===== src/Controller.antt =====
-- crates/controller: the outflow controller, which moves the admission cursor once an interval.
pub mod Float
pub mod Release
pub mod Pass
pub mod Arrivals
