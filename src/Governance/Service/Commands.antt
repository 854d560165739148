-- ===== src/Governance/Service/Commands.antt =====
-- The nine commands of backend/governance/service.py, by lifecycle.
mod Calls
mod Reviews
mod Publications
mod Resolutions
unfoldable pub use Calls.*
unfoldable pub use Reviews.*
unfoldable pub use Publications.*
unfoldable pub use Resolutions.*
