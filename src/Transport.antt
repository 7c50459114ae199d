-- ===== src/Transport.antt =====
-- Reading points, csp_lib/equipment/transport: the scheduler of read groups (scheduler.py) and the
-- grouping of points into reads (base.py, config.py).
pub mod Scheduler
pub mod Grouping
mod Tests
