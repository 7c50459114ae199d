-- ===== src/Integration.antt =====
-- The integration of devices, csp_lib/integration: the registry of devices (registry.py) and the
-- router of commands (command_router.py).
pub mod Registry
pub mod Router
pub mod Linked
pub mod InFlight
mod Tests
