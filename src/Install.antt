-- ===== src/Install.antt =====
-- internal/installplan: the offline installation plan and the preflight policy.
pub mod Plan
pub mod Limits
pub mod Preflight
pub mod Evidence
