-- ===== src/Kubernetes.antt =====
-- pkg/kubernetes: the robot as a node of a cluster. The API server and the work queue are outside
-- of the repository.
pub mod Pods
pub mod Vacuum
pub mod Node
pub mod Cleanings
pub mod FakePods
pub mod Sync
pub mod Run
mod Tests
