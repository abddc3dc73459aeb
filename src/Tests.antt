-- ===== src/Tests.antt =====
-- Runs of the model on concrete inputs.
pub mod Fixtures
pub mod Trees
pub mod Minimal
pub mod Orders
pub mod Caches
pub mod Codecs
pub mod Summaries
pub mod Handshakes
pub mod Heads
