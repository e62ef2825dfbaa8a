-- ===== src/Lib.antt =====
-- The intent settlement chain: the pallets of a Substrate runtime that take a user's insurance intents,
-- have a committee attest them, mint vouchers against a pool, and record their settlement on Cardano,
-- with the price oracle that stands beside them.
--
-- Parts and files
--   Common: tests, updates, lists, machine words and fallible code that all parts share.
--   Settlement: pallets/intent-settlement/src.
--     Types, Evidence, State: types.rs, and the storage, events, errors and configuration of lib.rs.
--     Currency: what the pallet relies on of the currency that holds the bonds.
--     Payloads: the `*_payload` helpers of lib.rs, `compute_*` of types.rs, voucher_canonicalize.rs.
--       Payloads/Attested and Payloads/Batched are those of the attested and the batched calls;
--       Injective, BatchInjective and Address are about the bytes that are signed.
--     Threshold: `verify_threshold_signatures`, `set_min_signer_threshold`; Threshold/Quorum.
--     Fairness: `validate_fairness_proof`; Fairness/Rules.
--     Submit: `do_submit_intent`, `submit_intent`, `request_credit_refund`; Submit/Effects, Submit/Cap.
--     Attest: `attest_intent`; Attest/Bundles.
--     Cardano: `cardano_ids`, `bind_aegis_policy_v1`, `CardanoIdentity::check`.
--     Voucher: `request_voucher`; Voucher/Gate.
--     Settle: `settle_claim`, `settle_batch_atomic`.
--     Deposit: `credit_deposit`, `set_pool_utilization`; Deposit/Replay.
--     Expire: `on_initialize`, `expire_policy_mirror`; Expire/Sweep.
--     Bonds: `reserve_settlement_bond`, `refund_settlement_bond` and the deletion of requests.
--     Attested: `request_settle`, `attest_settle`, `supersede_settlement_request`; Attested/Batch is
--       `request_batch_settle` and `attest_batch_settle`; Attested/Gate.
--     Slash: `post_settlement_bond`, `slash_bad_settlement_evidence`, `release_settlement_bond`.
--     PolicyExpiry: `request_expire_policy`, `attest_expire_policy`; PolicyExpiry/Gate.
--     Batches: `submit_batch_intents`, `attest_batch_intents`, `get_pending_batches`; Batches/Vouchers
--       is `request_batch_vouchers`, and Batches/Pending is about the pending batches.
--     Solvency: the bonds recorded against what the currency holds, one file for each kind of call.
--     Coverage: the pool's counter against the claims, for Mint, Pay, Batch and BatchTotals.
--     System: histories of the calls that need no request and no currency; System/Untouched and
--       Coverage, System/Forward, Advances and Progress, System/Finality, System/Records.
--     Pallet: the whole call table over the State, the requests and the currency. Refine is a batch
--       against its calls one by one, Batched, BatchAttest and BatchMint are about the batched calls,
--       Attested, Advance, Kept and Histories about histories. Records, RequestRecords, Recorded,
--       BatchRecorded and Lasting are about what no later call undoes.
--   Oracle: pallets/oracle/src. `submit_price`, `register_attestor`, the read calls; Oracle/Median is
--     `aggregate_median`, Rank and Robust are about it, Feeds and Bundles about submissions,
--     Roster about keys.
--   Tests: a small chain of each pallet, and the theorems at it.
--
-- How the parts interact
--   A Chain is the State, the Requests that wait for the committee and the currency's ledger.
--   Pallet.dispatch_call is the pallet's call table with the hook of a new block; the calls that touch
--   the State alone go through System.dispatch, and the others stand in Bonds, Attested, Slash and
--   PolicyExpiry. Attested settles claims that Voucher opens and pins the bond that Slash takes from or
--   gives back. Attest, Voucher, Settle and Deposit rest on Threshold for their signatures and on
--   Payloads for what is signed. Voucher raises the coverage that Settle lowers. Submit fills the queue
--   that Expire empties.
--
-- Correspondence
--   A storage map is a function from its key, a value query has its default there, and a set is a
--   Boolean. A dispatchable is a function with the source's name from its arguments and the State to
--   `Result Error State`; a call that fails keeps no change, since FRAME runs it in a storage layer that
--   is rolled back. `who` stands for the account that `ensure_signed` returns, `is_root` for the success
--   of `ensure_root`. Events are kept newest first. Ids, keys and hashes of 32 bytes are the numbers that
--   their bytes spell, the highest byte first. Saturating operations name their bound, `as u32` is the
--   remainder by 2^32, and a block number is `frame_system`'s, cut to 32 bits where the source does it.
--
-- Parameters
--   The record Runtime has what the runtime supplies: the constants of `Config`, the committee, the check
--   of a signature, the hash and the SCALE encoders. Nothing is assumed of the hash, so nothing says that
--   two digests differ; what the signed bytes determine is shown of the bytes.
--   The record Currency has the calls of `NamedReservableCurrency` that the pallet makes under its own
--   reserve identifier, and what frame_support documents of them: a reserve that succeeds raises the
--   account's reserve by the amount; unreserve and repatriate lower it by as much of the amount as it
--   holds and return the rest; and repatriate, with the status Free that the pallet asks for, adds what
--   it moved to the beneficiary's free balance and to no other. The ledger of Tests meets these laws.
--
-- Bounds and termination
--   Loops are recursions on the lists that they run over, so none needs fuel. Bounded vectors are lists
--   whose bound is tested where the source pushes to them. A batch fairness proof has at most 256
--   entries of 64 bits, which its arithmetic in 128 bits never exceeds.
--
-- Not modelled
--   The migrations, genesis and try-state checks; the reads of the runtime API other than the pending
--   batches; weights and the count of checked signatures that they read; the committee-governance and
--   perp-engine pallets; and the TypeScript clients.
pub mod Common
pub mod Settlement
pub mod Oracle
pub mod Tests
