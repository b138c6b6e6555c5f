-- ===== src/Control.antt =====
-- internal/control: the operator's typed configuration.
pub mod Paths
pub mod Config
pub mod Routing
pub mod Runtime
pub mod Events
