-- ===== src/Stores.antt =====
-- pkg/internal/stores: the sources of configs.
pub mod Api
pub mod Composite
pub mod Memory
pub mod Yaml
pub mod Files
pub mod Build
