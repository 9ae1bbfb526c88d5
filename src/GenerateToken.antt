-- ===== src/GenerateToken.antt =====
-- crates/generate_token: the exchange of a reached position for a session.
pub mod Decide
pub mod Admit
pub mod Live
pub mod Address
