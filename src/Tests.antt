-- ===== src/Tests.antt =====
-- Runs of the definitions on concrete inputs, and instances of the theorems at them.
mod Access
mod Graphs
mod Aborts
mod Limits
mod Pools
mod Runs
mod Windows
mod Definitions
mod Imports
mod Conditions
mod Executors
mod Accepted
mod Requests
mod Redactions
