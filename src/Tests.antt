-- ===== src/Tests.antt =====
-- Runs of the theorems at concrete inputs.
mod Data
mod Lists
mod Ordered
mod Requests
mod Queues
mod Tasks
mod Timers
mod Loops
mod Platforms
mod Machines
mod Interrupts
mod Registers
