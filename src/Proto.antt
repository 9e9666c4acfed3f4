-- ===== src/Proto.antt =====
-- The protobuf messages that the client reads (proto/prefab.pb.go), with the fields it uses.
-- A `*T` field is an `Option T`, except for `*ConfigValue`, whose nil is a constructor.
mod Values
mod Messages
unfoldable pub use Values.*
unfoldable pub use Messages.*
