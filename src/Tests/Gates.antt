-- ===== src/Tests/Gates.antt =====
-- The theorems on the signature gate, the fairness proof, the payloads and the Cardano identity.
use materios_intent_settleme.Common.{
  ℕ, ◌≤◌, ◌≡◌, refl, ◌↔◌, true, List, ok, err, length, arith, Distinct, All, contains, sum,
  replicate,
}
use Prim.Native.Nat.{max}
use materios_intent_settleme.Settlement.Types.{CardanoIdentity, Error}
use materios_intent_settleme.Settlement.Payloads.{build_type0_address_cbor}
use materios_intent_settleme.Settlement.Payloads.Injective.{request_voucher_body-injective}
use materios_intent_settleme.Settlement.Payloads.Address.{build_type0_address_cbor-injective}
use materios_intent_settleme.Settlement.Fairness.{validate_fairness_proof}
use materios_intent_settleme.Settlement.Fairness.Rules.{
  IsFair, IsInRange, AtMost, validate_fairness_proof_iff, validated_awards_bounded,
}
use materios_intent_settleme.Settlement.Threshold.{
  effective_threshold, verify_threshold_signatures, set_min_signer_threshold,
}
use materios_intent_settleme.Settlement.Threshold.Quorum.{
  keys, IsSigner, IsQuorum, verify_threshold_signatures_iff, invalid_signature_last,
  set_min_signer_threshold-bounded,
}
use materios_intent_settleme.Tests.World.{rt, start, proof, quorum}

verify_threshold_signatures_iff_example :
    (verify_threshold_signatures rt start 7 1 (quorum 7) ≡ ok tt) ↔ IsQuorum rt start 7 1 (quorum 7)
verify_threshold_signatures_iff_example = verify_threshold_signatures_iff rt start 7 1 (quorum 7)

-- Signatures of another digest.
forged_refused : verify_threshold_signatures rt start 7 1 (quorum 8) ≡ err Error.invalid_signature
unfolding verify_threshold_signatures
forged_refused = refl

invalid_signature_last_example :
    (length (quorum 8) ≤ rt.max_committee)
    × (effective_threshold rt start ≤ length (quorum 8))
    × (contains (keys (quorum 8)) (rt.pubkey_of 1) ≡ true)
    × Distinct (keys (quorum 8))
    × All (IsSigner rt) (keys (quorum 8))
invalid_signature_last_example = invalid_signature_last rt start 7 1 (quorum 8) forged_refused

floor_set :
    set_min_signer_threshold rt true 2 start ≡ ok (record start { min_signer_threshold = 2 })
unfolding set_min_signer_threshold
floor_set = refl

set_min_signer_threshold-bounded_example :
    (effective_threshold rt (record start { min_signer_threshold = 2 }) ≤ max rt.threshold 1)
    × (true ≡ true)
set_min_signer_threshold-bounded_example =
    set_min_signer_threshold-bounded rt true 2 start (record start { min_signer_threshold = 2 })
      floor_set

proof-IsInRange : IsInRange proof
proof-IsInRange = ground arith

validate_fairness_proof_iff_example : (validate_fairness_proof proof ≡ ok tt) ↔ IsFair proof
validate_fairness_proof_iff_example = validate_fairness_proof_iff proof proof-IsInRange

proof_accepted : validate_fairness_proof proof ≡ ok tt
unfolding validate_fairness_proof
proof_accepted = refl

validated_awards_bounded_example :
    AtMost proof.awarded_amounts_ada proof.requested_amounts_ada
    × (sum proof.awarded_amounts_ada ≤ proof.pool_balance_ada)
    × Distinct proof.sorted_intent_ids
validated_awards_bounded_example = validated_awards_bounded proof proof-IsInRange proof_accepted

abbrev chain : ℕ
chain = 1

abbrev claim : ℕ
claim = 70

abbrev intent : ℕ
intent = 325

abbrev tx : ℕ
tx = 88

abbrev amount : ℕ
amount = 250

abbrev target : List ℕ
target = replicate 32 6

abbrev payment : List ℕ
payment = replicate 28 7

abbrev stake : List ℕ
stake = replicate 28 9

request_voucher_body-injective_example :
    (chain ≡ chain) × (claim ≡ claim) × (intent ≡ intent) × (tx ≡ tx) × (claim ≡ claim)
request_voucher_body-injective_example =
    request_voucher_body-injective chain chain claim claim intent intent tx tx claim claim
      (omega arith, omega arith) (omega arith, omega arith) (omega arith, omega arith)
      (omega arith, omega arith) (omega arith, omega arith) refl

build_type0_address_cbor-injective_example :
    (payment ≡ payment) × (stake ≡ stake) × (length (build_type0_address_cbor payment stake) ≡ 80)
build_type0_address_cbor-injective_example =
    build_type0_address_cbor-injective payment payment stake stake (refl, refl) (refl, refl) refl

abbrev preprod : CardanoIdentity
preprod = record { network_magic = 1; mainchain_genesis_hash = 5; aegis_policy_v1_script_hash = 0 }
