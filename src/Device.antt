-- ===== src/Device.antt =====
-- The device, csp_lib/equipment/device: its link (base.py), its points and values (base.py) and its
-- writes (mixins.py).
pub mod Link
pub mod Points
pub mod Emitter
pub mod Delivery
pub mod Heard
mod Tests
