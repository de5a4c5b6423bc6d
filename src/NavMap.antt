-- ===== src/NavMap.antt =====
-- pkg/navmap: the maps and paths of the vacuum.
pub mod Reader
pub mod RobotDb
pub mod Slam
pub mod Maps
pub mod Loop
pub mod Cleanings
pub mod Handlers
pub mod Server
mod Tests
