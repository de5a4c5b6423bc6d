-- ===== src/Cloud.antt =====
-- The cloud side of pkg/rockrobo/cloud.go: packets (`Message`), the receiving goroutine with the
-- callers that wait for its answers (`Receiver`), and the keep-alive loop (`KeepAlive`).
pub mod Message
pub mod Receiver
pub mod Otc
pub mod KeepAlive
mod Tests
