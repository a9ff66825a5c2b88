-- ===== src/Tests.antt =====
-- Runs of the theorems on concrete inputs.
mod Samples
mod Sync
mod Results
mod Targets
mod Slots
mod Timestamps
mod Runs
mod Checkers
mod Loops
mod Commands
mod Migrations
mod Interleavings
mod Alone
