-- ===== src/Issues.antt =====
-- Reports from the public: src/lib/issueVisibility.ts, src/lib/issues.ts, src/lib/issueAlerts.ts and the
-- actions of the queue.
pub mod Visibility
pub mod Privacy
pub mod Reports
pub mod Lifecycle
pub mod Alerts
pub mod Outbox
pub mod Notices
pub mod Fanout
pub mod Queue
pub mod Steps
pub mod Moves
pub mod Tests
