-- ===== src/Gateway.antt =====
-- The Modbus gateway, csp_lib/modbus_gateway: the register map (register_map.py), the pipeline of
-- writes (pipeline.py, config.py, validators.py, datablock.py) and the watchdog (watchdog.py).
pub mod Slices
pub mod RegisterMap
pub mod Pipeline
pub mod Watchdog
mod Tests
