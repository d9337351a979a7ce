-- ===== src/Base/Dict.antt =====
-- Go's maps as association lists. The order of the entries stands for the order in which a `range`
-- loop meets them, which Go leaves open: theorems about such loops hold for every order.
mod Defs
mod Laws
mod Bindings
unfoldable pub use Defs.*
pub use Laws.*
pub use Bindings.*
