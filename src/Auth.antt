-- ===== src/Auth.antt =====
-- Accounts, roles and permissions: src/lib/auth and the actions of the people page.
pub mod Permissions
pub mod Account
pub mod Roles
pub mod Rbac
pub mod People
pub mod Otp
pub mod Recovery
pub mod Linking
pub mod Tokens
