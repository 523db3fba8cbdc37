-- ===== src/Json.antt =====
-- json.rs, and the values of serde_json (numbers in arbitrary precision are their text, objects are
-- in key order).
mod Defs
pub mod Parse
unfoldable pub use Defs.*
