-- ===== src/Articles.antt =====
-- Articles: src/app/(dashboard)/dashboard/articles/actions.ts and the rules that it calls.
pub mod Rights
pub mod Slugs
pub mod Records
pub mod Media
pub mod Writing
pub mod Publishing
pub mod Inversion
pub mod Saves
pub mod Acts
pub mod Gates
pub mod Owners
pub mod Due
pub mod Unique
pub mod Sources
pub mod Tests
