-- ===== src/Worker.antt =====
-- internal/runtime/worker.go: processClaim, over the work of a claim; handleLeaseReclaim and
-- handleSchedulerWakeup of async_service.go; and the stores of attempts and workers of work_queue_store.go.
pub mod Registry
pub mod Work
pub mod Claims
pub mod Wakeups
pub mod Reclaim
pub mod Timeouts
pub mod Record
mod Tests
