-- ===== src/Tests.antt =====
-- The theorems at concrete inputs, and runs of the definitions.
mod Messages
mod Queues
mod Lists
mod Data
mod Elements
mod Joining
mod Sessions
