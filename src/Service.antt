-- ===== src/Service.antt =====
-- internal/runtime: the service over the stores.
pub mod Types
pub mod Effects
pub mod Persist
pub mod Execution
pub mod Graphs
pub mod Actions
pub mod Operator
pub mod Attempts
pub mod Tests
