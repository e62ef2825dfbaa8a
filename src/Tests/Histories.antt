-- ===== src/Tests/Histories.antt =====
-- The theorems on the life of an intent and of its claim, at one life.
use materios_intent_settleme.Common.{
  ◌+◌, ◌-◌, ◌≡◌, refl, ◌⊎◌, true, Bool, List, [], ◌∷◌, some, arith, Distinct, All,
}
use materios_intent_settleme.Settlement.Submit.{do_submit_intent, submit_intent}
use materios_intent_settleme.Settlement.Submit.Effects.{IsSubmitted, do_submit_intent-IsSubmitted}
use materios_intent_settleme.Settlement.Attest.Bundles.{BundlesInv}
use materios_intent_settleme.Settlement.Voucher.{claim_of}
use materios_intent_settleme.Settlement.Voucher.Gate.{IsBacked, request_voucher-IsBacked}
use materios_intent_settleme.Settlement.Fairness.Rules.{IsInRange}
use materios_intent_settleme.Settlement.Coverage.{CoverageInv}
use materios_intent_settleme.Settlement.Coverage.Pay.{settle_claim_pays}
use materios_intent_settleme.Settlement.Coverage.Batch.{
  Pair, pair_ids, IsDue, entries_of, ArePaid, amounts,
}
use materios_intent_settleme.Settlement.Coverage.BatchTotals.{settle_batch_atomic_pays}
use materios_intent_settleme.Settlement.System.{Call, run, dispatch}
use materios_intent_settleme.Settlement.System.Coverage.{run-CoverageInv}
use materios_intent_settleme.Tests.World.{
  rt, start, kind, id, submitted, half_attested, attested, minted, settled, batch_settled, voucher,
  proof, quorum, mint_digest, settlement_signatures, entries, batch_signatures, attestation, mint,
  settlement,
}
use materios_intent_settleme.Tests.Runs.{submits, mints, minted_claim, settles, settles_batch}

start-CoverageInv : CoverageInv start
start-CoverageInv = record {
  ids = [];
  index = record { distinct = tt; complete = λ id h. refl };
  backed = refl;
  bounded = ground arith;
  paired = λ id. refl;
}

attested-CoverageInv : CoverageInv attested
attested-CoverageInv =
    run-CoverageInv rt (attestation 2 ∷ []) half_attested (refl, tt)
      (run-CoverageInv rt (attestation 1 ∷ []) submitted (refl, tt)
        (run-CoverageInv rt (Call.submits 5 kind ∷ []) start (refl, tt) start-CoverageInv))

minted-CoverageInv : CoverageInv minted
minted-CoverageInv = run-CoverageInv rt (mint ∷ []) attested (refl, tt) attested-CoverageInv

settled-CoverageInv : CoverageInv settled
settled-CoverageInv = run-CoverageInv rt (settlement ∷ []) minted (refl, tt) minted-CoverageInv

settle_claim_pays_example :
    ((Bool.false ≡ true) × (settled ≡ minted))
    ⊎ ((settled.pool.outstanding_coverage_ada + 500 ≡ minted.pool.outstanding_coverage_ada)
        × (settled.pool.total_nav_ada ≡ minted.pool.total_nav_ada - 500)
        × (settled.claims 70
            ≡ some (record (claim_of id voucher) {
              is_settled = true;
              settled_direct = true;
              cardano_tx_hash = 88;
            })))
settle_claim_pays_example =
    settle_claim_pays rt 1 70 88 true settlement_signatures minted settled minted-CoverageInv
      minted_claim settles

settle_batch_atomic_pays_example :
    (pairs : List Pair) × (entries_of pairs ≡ entries)
    × Distinct (pair_ids pairs)
    × All (IsDue minted.claims) pairs
    × ArePaid batch_settled.claims pairs
    × (batch_settled.pool.outstanding_coverage_ada + amounts pairs
        ≡ minted.pool.outstanding_coverage_ada)
    × (batch_settled.pool.total_nav_ada ≡ minted.pool.total_nav_ada - amounts pairs)
settle_batch_atomic_pays_example =
    settle_batch_atomic_pays rt 1 entries batch_signatures minted batch_settled minted-CoverageInv
      settles_batch

do_submit_intent-IsSubmitted_example : IsSubmitted rt 5 kind start id submitted
do_submit_intent-IsSubmitted_example =
    do_submit_intent-IsSubmitted rt 5 kind start id submitted submits

pub submitted-BundlesInv : BundlesInv rt submitted
unfolding run dispatch submit_intent do_submit_intent
submitted-BundlesInv = record {
  collected = λ j. record { distinct = tt; members = tt; valid = tt };
  stored = λ j bundle e. ground arith;
}

proof-IsInRange : IsInRange proof
proof-IsInRange = ground arith

request_voucher-IsBacked_example :
    IsBacked rt 1 70 id voucher proof (quorum mint_digest) attested minted
request_voucher-IsBacked_example =
    request_voucher-IsBacked rt 1 70 id voucher proof (quorum mint_digest) attested minted
      proof-IsInRange mints
