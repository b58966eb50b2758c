-- ===== src/Tests.antt =====
-- Test data and concrete runs of the development, one module per area.
mod Rooms
mod Visits
mod Streams
mod Settings
mod Elements
mod Logs
mod Leases
mod Groups
mod Clocks
mod Screens
mod Conversations
mod Standards
