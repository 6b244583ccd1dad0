-- ===== src/Host.antt =====
-- host_api.rs
mod Calls
mod Effect
mod Rules
pub use Calls.*
unfoldable pub use Effect.*
unfoldable pub use Rules.*
