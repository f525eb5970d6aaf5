-- ===== src/Http/Auth.antt =====
-- go/cmd/sobs/auth.go: the API-key layer of the ingest routes and the basic or external
-- authentication of the others.
mod Config
mod Origin
mod Enforce
pub mod Classes
pub mod Keys
pub mod Ui
pub mod Tests
unfoldable pub use Config.*
unfoldable pub use Origin.*
unfoldable pub use Enforce.*
