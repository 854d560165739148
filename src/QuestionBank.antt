-- ===== src/QuestionBank.antt =====
-- backend/question_bank: bilingual questions, whose contents are versions in a JSON file, and whose
-- lifecycle is kept in tables beside it.
pub mod Statuses
pub mod Content
pub mod Validator
pub mod Patch
pub mod Store
pub mod Service
pub mod Calls
pub mod Atomicity
pub mod Lifecycle
pub mod Refinement
pub mod Visibility
pub mod Restoring
pub mod Answers
