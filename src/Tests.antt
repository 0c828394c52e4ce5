-- ===== src/Tests.antt =====
-- Concrete instances of the theorems, and runs of the definitions at fixed inputs.
mod Fixtures
mod Below
mod Copies
mod Wire
mod Settings
mod Session
mod Processes
mod Burst
mod Whole
mod Recovery
mod Replay
mod Survival
mod Nonces
mod Footprint
mod Returns
