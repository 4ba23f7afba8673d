-- ===== src/Comments.antt =====
-- Comments: src/components/comments/actions.ts, the moderation queue of
-- src/app/(dashboard)/dashboard/comments/actions.ts, and the rules that they call.
pub mod Spam
pub mod Threads
pub mod Posting
pub mod Moderation
pub mod Changes
pub mod Actions
pub mod Depth
pub mod Held
pub mod Promises
pub mod Tests
