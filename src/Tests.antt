-- ===== src/Tests.antt =====
-- Concrete inputs: a host, configs and stores, and each theorem at one of them.
pub mod Data
pub mod Values
pub mod Evaluation
pub mod Sources
pub mod Parsing
pub mod Startup
