-- ===== src/TokenGen.antt =====
-- TokenGen, the proxy that gives each request its waiting time.
pub mod Book
pub mod Link
pub mod Reply
pub mod Watch
pub mod Outbox
pub mod Second
pub mod Process
