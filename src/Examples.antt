-- ===== src/Examples.antt =====
-- Concrete inputs: a database in memory, addresses and messages as bytes, and the theorems at them.
mod Memory
mod FreeGas
mod Witnesses
mod Breaker
mod Commits
mod Sessions
mod Accounts
mod Messages
mod Registration
mod Requests
mod Pending
mod Encodings
mod MemoryDbs
mod Tries
mod Walks
