-- ===== src/Setup.antt =====
-- How a pod is set up: pkg/init, and parsePodName, loadConfig and initializeEnvironment of
-- cmd/etcdcluster/main.go.
pub mod Network
pub mod PodName
pub mod Settings
pub mod Files
pub mod Certificate
pub mod Environment
pub mod Startup
mod Tests
