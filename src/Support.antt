-- ===== src/Support.antt =====
-- Memberships and donations: src/lib/money.ts and src/lib/contributions.ts.
pub mod Calendar
pub mod Money
pub mod Amounts
pub mod Contributions
pub mod Payments
pub mod Records
pub mod Rulings
pub mod Totals
pub mod Memberships
pub mod Tests
