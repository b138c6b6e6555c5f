-- ===== src/Examples.antt =====
-- Runs of the models at concrete inputs, one file for each component.
mod Queues
mod Gates
mod Accounts
mod Logins
mod Routes
mod Schedules
mod Rings
mod Rotations
mod Plans
mod Tokens
