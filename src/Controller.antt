-- ===== src/Controller.antt =====
-- pkg/controller: the controllers that keep the state of pods, nodes and config maps.
pub mod Sets
pub mod Loop
pub mod Hosts
pub mod ConfigMaps
pub mod EcsNode
pub mod Node
pub mod Pod
pub mod PubSub
pub mod SecretSync
pub mod Service
mod Tests
