-- ===== src/Governance.antt =====
-- backend/governance: lifecycles, decisions, the append-only event store and its service.
pub mod Enums
pub mod Members
pub mod Transitions
pub mod Timestamps
pub mod Errors
pub mod Decisions
pub mod Events
pub mod Store
pub mod Service
pub mod Log
