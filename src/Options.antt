-- ===== src/Options.antt =====
-- pkg/internal/options and pkg/option_helpers.go: what a client is configured by.
pub mod Sources
pub mod Settings
pub mod Helpers
