-- ===== src/Auth.antt =====
-- apps/api/src/auth: consents, authorization codes, refresh grants and webhook deliveries.
pub mod Contexts
pub mod Grants
pub mod Memory
pub mod Bounds
pub mod Within
pub mod Steps
pub mod Room
pub mod Claims
pub mod Reuse
pub mod Families
pub mod Tokens
pub mod Security
