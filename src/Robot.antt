-- ===== src/Robot.antt =====
-- pkg/rockrobo: the robot's own goroutines, its start and its end.
pub mod Status
pub mod Stop
pub mod DeviceInit
pub mod Accept
