-- ===== src/Tests.antt =====
-- The theorems at concrete inputs.
mod Caches
mod Series
mod Requests
mod Sessions
mod Inspections
mod Rankings
mod Bodies
mod Loads
mod Starts
mod Servers
mod Workers
mod Deliveries
