-- ===== src/Broker.antt =====
-- mbroker/: the message broker, its table of boxes and its workers.
pub mod Types
pub mod Table
pub mod Listing
pub mod Files
pub mod Handlers
pub mod Sessions
pub mod Listener
pub mod Start
mod Examples
