-- ===== src/Daemon.antt =====
-- src/daemon/: the single owner of the store.
pub mod Framing
pub mod Watchdog
pub mod Retention
