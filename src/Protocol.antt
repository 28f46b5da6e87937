-- ===== src/Protocol.antt =====
-- The wire protocol: frame headers, frames and control records.
pub mod Header
pub mod Frame
pub mod Record
mod Examples
