-- ===== src/Trust.antt =====
-- internal/configtrust: signed configuration snapshots and the gate that accepts them.
pub mod Codec
pub mod Gate
