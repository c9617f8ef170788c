-- ===== src/Governance.antt =====
-- Governance: the rules on actions, reports and memory writes, and the service that applies them.
pub mod Types
pub mod Rules
pub mod Engine
pub mod Service
mod Tests
