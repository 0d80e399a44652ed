-- ===== src/Memory/Examples.antt =====
-- The theorems on concrete stores.
mod Outbox
mod Accounts
mod Resets
mod Queues
mod Groups
mod Media
