-- ===== src/Tests.antt =====
-- Runs of the models on concrete data: tests, and for each theorem with hypotheses an instance.
pub mod Clocks
pub mod Destinations
pub mod Engine
pub mod Accounts
pub mod Fleet
pub mod Lookups
pub mod Schedules
pub mod Readers
pub mod Trail
pub mod Watchdogs
