-- ===== src/Workflow.antt =====
-- The workflow runtime: its state machine, its checkpoints and its resume tokens.
pub mod Types
pub mod Controller
pub mod Checkpoints
mod Tests
