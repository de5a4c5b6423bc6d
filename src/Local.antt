-- ===== src/Local.antt =====
-- The local side: pkg/rockrobo/local_connection.go, and the calls of pkg/rockrobo/rockrobo.go that
-- go through its connections.
pub mod Queues
pub mod Connection
pub mod Commands
pub mod AppCommand
mod Tests
