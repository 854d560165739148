-- ===== src/Examples.antt =====
-- Concrete inputs at which the theorems are applied.
mod Governance
mod Washer
mod Sync
mod QuestionBank
mod Joints
