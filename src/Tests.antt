-- ===== src/Tests.antt =====
-- The theorems applied to concrete data.
mod Cache
mod Gvas
mod Idempotency
mod Indexer
mod Jobs
mod Palconfig
mod Rcon
mod Sav
