-- ===== src/Examples.antt =====
-- The theorems applied to concrete inputs.
mod Samples
mod Values
mod Documents
mod Filters
mod Keys
mod Migrations
mod Schemas
mod Sessions
mod Ledgers
mod Operations
mod Deletions
mod Server
mod Writes
mod Stores
mod Upserts
mod Dispatch
mod Pages
mod Handles
