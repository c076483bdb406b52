-- ===== src/Tests.antt =====
-- The theorems at concrete inputs, with concrete code for the parameters.
mod Parameters
mod Queues
mod Schedules
mod Interleavings
mod Sketches
mod Windows
mod Rules
mod Events
mod Workers
mod Engines
mod Floods
mod Payloads
mod Routes
mod Traffic
mod Launches
