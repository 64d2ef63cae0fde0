-- ===== src/Examples.antt =====
-- Concrete runs: the theorems at values where their hypotheses hold.
mod WasmMemory
mod Data
mod Storage
mod Network
mod Shard
mod Nucleus
mod Instance
mod Requests
mod Conductor
