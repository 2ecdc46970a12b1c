-- ===== src/TestCases.antt =====
-- Evaluation test cases in the admin console.
pub mod Points
pub mod Bank
pub mod Pairs
