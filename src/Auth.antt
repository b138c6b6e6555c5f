-- ===== src/Auth.antt =====
-- internal/adminauth: who may do what in the Backoffice, and for how long.
pub mod Policy
pub mod Session
pub mod Rights
pub mod Validity
pub mod Totp
pub mod OneUse
pub mod Csrf
pub mod Mutations
pub mod Store
