-- ===== src/Tests.antt =====
-- Concrete inputs, on which the definitions are run and the theorems are applied.
mod Samples
mod Graphs
mod Requests
mod Accounts
mod Tokens
mod Paths
mod Redis
mod Platform
mod Recovery
mod Sessions
mod Limits
mod Names
