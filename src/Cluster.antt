-- ===== src/Cluster.antt =====
-- pkg/cluster: endpoint discovery, membership and the brain-split check of one etcd pod.
pub mod Host
pub mod Discovery
pub mod Members
pub mod Join
pub mod Measures
pub mod Running
pub mod Passive
pub mod Only
pub mod BrainSplit
pub mod Tests
