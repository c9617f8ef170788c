-- ===== src/Stores.antt =====
-- The runtime's in-memory stores of approvals, executions and operator actions.
pub mod Types
pub mod Versioned
pub mod Approvals
pub mod Executions
pub mod Actions
pub mod Tests
