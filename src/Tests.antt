-- ===== src/Tests.antt =====
-- Runs of the model at concrete inputs.
mod World
mod Runs
mod Ledger
mod Bonded
mod Chains
mod Batches
mod Histories
mod Gates
mod Credits
mod Prices
mod Lasting
