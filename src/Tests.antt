-- ===== src/Tests.antt =====
-- The theorems at concrete inputs.
mod Embedded
mod Queries
mod Inserts
mod Environment
mod Sample
mod Laws
mod Calls
mod Transfers
mod Symbols
mod Metas
mod Harnessed
mod Tables
