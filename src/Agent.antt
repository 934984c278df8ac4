-- ===== src/Agent.antt =====
-- The agent on the serving machine (crates/nebula-agent/src): its engine for file transfers, and one
-- side of the clipboard.
pub mod Files
pub mod Clipboard
mod Tests
