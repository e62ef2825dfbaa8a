-- ===== src/Settlement.antt =====
-- The intent-settlement pallet (pallets/intent-settlement/src): its data and storage, and a child
-- for each group of dispatchables and hooks.
pub mod Evidence
pub mod Types
pub mod State
pub mod Currency
pub mod Payloads
pub mod Threshold
pub mod Fairness
pub mod Submit
pub mod Attest
pub mod Cardano
pub mod Voucher
pub mod Settle
pub mod Deposit
pub mod Expire
pub mod Bonds
pub mod Attested
pub mod Slash
pub mod PolicyExpiry
pub mod Batches
pub mod Coverage
pub mod Solvency
pub mod System
pub mod Pallet
