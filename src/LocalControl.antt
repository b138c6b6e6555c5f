-- ===== src/LocalControl.antt =====
-- internal/localcontrol: the owner's rotation of the deployment keys.
pub mod Rotation
