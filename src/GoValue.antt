-- ===== src/GoValue.antt =====
-- The values of Go's `any` that the program meets, and the parts of Go that it takes as given.
mod Values
mod Hosts
unfoldable pub use Values.*
unfoldable pub use Hosts.*
