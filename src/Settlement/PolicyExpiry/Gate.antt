-- ===== src/Settlement/PolicyExpiry/Gate.antt =====
-- What an attested expiry rests on (`attest_expire_policy` of
-- pallets/intent-settlement/src/lib.rs).
use materios_intent_settleme.Common.{
  ℕ, ◌≤◌, ◌≡◌, ◌⊎◌, inl, inr, true, false, length, List, none, some, ok, arith, Bool-cases,
  Option-cases, Result-cases,
}
use materios_intent_settleme.Settlement.Evidence.{ExpiryRequestRecord}
use materios_intent_settleme.Settlement.Types.{Signature, Intent, IntentStatus, CardanoIdentity}
use materios_intent_settleme.Settlement.State.{Runtime}
use materios_intent_settleme.Settlement.Currency.{Chain}
use materios_intent_settleme.Settlement.Payloads.Attested.{expire_policy_attested_payload}
use materios_intent_settleme.Settlement.Cardano.{cardano_ids}
use materios_intent_settleme.Settlement.Threshold.Quorum.{IsQuorum, verify_threshold_signatures_iff}
use materios_intent_settleme.Settlement.Bonds.{request_expired}
use materios_intent_settleme.Settlement.PolicyExpiry.{
  is_expired, resolve_intent_policy_id, attest_expire_policy, is_settled_status,
}

-- The expiry of an intent that is neither settled nor expired, on the committee's signatures.
pub record IsAttestedExpiry {L : Type 0} (rt : Runtime) (who id : ℕ) (sigs : List Signature)
    (q : ExpiryRequestRecord) (i : Intent) (ch ch' : Chain L) : Type 0 where
  pub policy_id : ℕ
  pub cardano : CardanoIdentity
  pub not_settled : i.status ≡ IntentStatus.settled → ⊥
  pub resolved : resolve_intent_policy_id i.kind ≡ ok policy_id
  pub network : cardano_ids ch.pallet ≡ ok cardano
  pub quorum :
      IsQuorum rt ch.pallet
        (expire_policy_attested_payload rt rt.chain_id id policy_id q.evidence.cardano_tx_hash
          q.evidence.observed_at_depth q.evidence.observed_slot cardano.mainchain_genesis_hash)
        who
        sigs
  pub expired : ch'.pallet.intents id ≡ some (record i { status = IntentStatus.expired })
  pub credits_kept : ch'.pallet.credits ≡ ch.pallet.credits

not_settled_of : (s : IntentStatus) → is_settled_status s ≡ false → s ≡ IntentStatus.settled → ⊥
not_settled_of s h e = ground arith

-- An attestation of an expiry that succeeds comes from a member, with no more signatures than the
-- committee may have, over a request that is there and within its time to live, and consumes it.
-- Either the intent was expired before, and the pallet's storage is left as it was, whatever the
-- signatures are, or it was not settled, the bundle is a quorum over the digest of the
-- request's observation with the intent's own policy and the chain's mainchain genesis hash, and
-- the intent is expired. No credit is given back in either case.
pub attest_expire_policy-cases :
    {L : Type 0} (rt : Runtime) (who id : ℕ) (sigs : List Signature) (ch ch' : Chain L)
    → attest_expire_policy rt who id sigs ch ≡ ok ch'
    → (rt.is_member who ≡ true)
      × (length sigs ≤ rt.max_committee)
      × (q : ExpiryRequestRecord) × (i : Intent) × (ch.requests.policy_expire_requests id ≡ some q)
      × (request_expired rt ch.pallet q.submitted_block ≡ false)
      × (ch.pallet.intents id ≡ some i)
      × (ch'.requests.policy_expire_requests id ≡ none)
      × (((i.status ≡ IntentStatus.expired) × (ch'.pallet ≡ ch.pallet))
          ⊎ IsAttestedExpiry rt who id sigs q i ch ch')
unfolding attest_expire_policy
attest_expire_policy-cases rt who id sigs ch ch' h =
    elim (Option-cases (ch.requests.policy_expire_requests id)) [
      | inl missing ↦ ground arith
      | inr (q, e) ↦ elim (Option-cases (ch.pallet.intents id)) [
        | inl missing ↦ ground arith
        | inr (i, f) ↦ elim (Bool-cases (is_expired i.status)) [
          | inl over ↦ (
            ground arith,
            ground arith,
            q,
            i,
            e,
            ground arith,
            f,
            ground arith,
            inl (ground arith, ground arith),
          )
          | inr alive ↦ elim (Result-cases (cardano_ids ch.pallet)) [
            | inl (x, failed) ↦ absurd (ground arith)
            | inr (cardano, n) ↦ elim (Result-cases (resolve_intent_policy_id i.kind)) [
              | inl (x, failed) ↦ absurd (ground arith)
              | inr (policy, r) ↦ (
                ground arith,
                ground arith,
                q,
                i,
                e,
                ground arith,
                f,
                ground arith,
                inr (record {
                  policy_id = policy;
                  cardano = cardano;
                  not_settled = not_settled_of i.status (ground arith);
                  resolved = r;
                  network = n;
                  quorum =
                      (verify_threshold_signatures_iff rt ch.pallet
                          (expire_policy_attested_payload rt rt.chain_id id policy
                            q.evidence.cardano_tx_hash q.evidence.observed_at_depth
                            q.evidence.observed_slot cardano.mainchain_genesis_hash)
                          who sigs).0
                        (ground arith);
                  expired = ground arith;
                  credits_kept = ground arith;
                }),
              )
            ]
          ]
        ]
      ]
    ]
