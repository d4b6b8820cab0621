-- ===== src/Commands.antt =====
-- The programs of cmd, without their logs, metrics and signals.
pub mod Dispatcher
pub mod Worker
pub mod Janitor
pub mod ApiServer
pub mod ResultsHandler
pub mod Started
pub mod Watches
