-- ===== src/Cluster.antt =====
-- The cluster of controllers, csp_lib/cluster: the election of a leader (election.py).
pub mod Election
mod Tests
