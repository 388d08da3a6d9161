-- ===== src/Tests.antt =====
-- The theorems applied to concrete inputs, and runs of the operations.
mod Connections
mod Ports
mod Segments
mod Telemetry
mod Neighbours
mod Sending
mod Cores
mod Machine
mod Endings
