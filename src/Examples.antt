-- ===== src/Examples.antt =====
-- Runs at concrete inputs: numbers that meet the interface of floats, and the theorems applied.
mod Numbers
mod Alerts
mod Rules
mod Caches
mod Jobs
mod Stores
mod Drafts
mod Scans
