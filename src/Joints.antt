-- ===== src/Joints.antt =====
-- backend/joints and the read side of backend/governance over it: joints with their revisions, their
-- projection onto review statuses, its query and its export.
pub mod Service
pub mod Revisions
pub mod Closed
pub mod Invariant
pub mod Projection
pub mod Query
pub mod Csv
pub mod Reader
pub mod Reading
pub mod Pages
pub mod Order
