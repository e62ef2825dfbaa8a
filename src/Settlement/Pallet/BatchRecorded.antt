-- ===== src/Settlement/Pallet/BatchRecorded.antt =====
-- A batch of attestations keeps the bundles well-formed, and the records of deposits and of the
-- identity (`attest_batch_intents` of pallets/intent-settlement/src/lib.rs).
use materios_intent_settleme.Common.{
  ℕ, ◌∙◌, ◌≡◌, inl, inr, true, List, [], ◌∷◌, some, ok, arith, Result-cases, Bool-cases, put-elim,
  contains, put,
}
use materios_intent_settleme.Settlement.Types.{Signature, Intent, is_attested}
use materios_intent_settleme.Settlement.State.{Runtime, State}
use materios_intent_settleme.Settlement.Payloads.Batched.{attest_batch_intents_payload}
use materios_intent_settleme.Settlement.Threshold.{effective_threshold}
use materios_intent_settleme.Settlement.Threshold.Quorum.{IsQuorum, verify_threshold_signatures_iff}
use materios_intent_settleme.Settlement.Attest.Bundles.{
  BundlesInv, IsStored, IsBundle, IsAttestation, IsBatchBundle, nil-IsBundle,
}
use materios_intent_settleme.Settlement.Batches.{
  attest_entry, attest_entries, hydrate_intents, attest_batch_intents, all_attested,
}
use materios_intent_settleme.Settlement.Pallet.BatchAttest.{intent_ids, hydrate_intents_sound}
use materios_intent_settleme.Settlement.Pallet.Recorded.{
  IsRecorded, IsRecorded-refl, BundlesInv-kept,
}

-- The loop of a batch, with signatures that attest each of its entries.
attest_entry-BundlesInv :
    (rt : Runtime) (id : ℕ) (i : Intent) (sigs : List Signature) (fresh : ℕ) (s : State)
    (r : State × ℕ)
    → BundlesInv rt s
    → IsAttestation rt id sigs
    → attest_entry id i sigs fresh s ≡ ok r
    → BundlesInv rt r.0
attest_entry-BundlesInv rt id i sigs fresh s r inv good h =
    elim (Bool-cases (is_attested i.status)) [
      | inl done ↦ let same : r.0 ≡ s = ground arith in rw same inv
      | inr open_intent ↦ record {
        collected =
            let c : r.0.pending_attestations ≡ put s.pending_attestations id [] = ground arith in
            rw c (
              put-elim (IsBundle rt) s.pending_attestations id [] inv.collected
                (nil-IsBundle rt id));
        stored =
            let b : r.0.attestation_sigs ≡ put s.attestation_sigs id (some sigs) = ground arith in
            rw b (
              put-elim (IsStored rt) s.attestation_sigs id (some sigs) inv.stored
                λ bundle e. let same : sigs ≡ bundle = cc in rw (← same) good);
      }
    ]

attest_entries-BundlesInv :
    (rt : Runtime) (es : List (ℕ × Intent)) (sigs : List Signature) (fresh : ℕ) (s : State)
    (r : State × ℕ)
    → BundlesInv rt s
    → ((id : ℕ) → contains (intent_ids es) id ≡ true → IsAttestation rt id sigs)
    → attest_entries es sigs fresh s ≡ ok r
    → BundlesInv rt r.0
unfolding attest_entries
attest_entries-BundlesInv rt [] sigs fresh s r inv good h =
    let same : r.0 ≡ s = ground arith in rw same inv
attest_entries-BundlesInv rt ((id, i) ∷ es) sigs fresh s r inv good h =
    elim (Result-cases (attest_entry id i sigs fresh s)) [
      | inl (x, failed) ↦ absurd (ground arith)
      | inr (t, done) ↦
          attest_entries-BundlesInv rt es sigs t.1 t.0 r
            (attest_entry-BundlesInv rt id i sigs fresh s t inv (good id (ground arith)) done)
            (λ j e. good j (ground arith)) (ground arith)
    ]

attest_entries_kept :
    (es : List (ℕ × Intent)) (sigs : List Signature) (fresh : ℕ) (s : State) (r : State × ℕ)
    → attest_entries es sigs fresh s ≡ ok r
    → (r.0.processed_deposits ≡ s.processed_deposits) × (r.0.cardano_ids ≡ s.cardano_ids)
unfolding attest_entries
attest_entries_kept [] sigs fresh s r h = ground arith
attest_entries_kept ((id, i) ∷ es) sigs fresh s r h =
    elim (Result-cases (attest_entry id i sigs fresh s)) [
      | inl (x, failed) ↦ absurd (ground arith)
      | inr (t, done) ↦
          let rest = attest_entries_kept es sigs t.1 t.0 r (ground arith) in
          (rest.0 ∙ ground arith, rest.1 ∙ ground arith)
    ]

batch_bundle :
    (rt : Runtime) (s : State) (who id : ℕ) (ids : List ℕ) (sigs : List Signature)
    → IsQuorum rt s (attest_batch_intents_payload rt rt.chain_id ids) who sigs
    → contains ids id ≡ true
    → IsBatchBundle rt id sigs
unfolding effective_threshold
batch_bundle rt s who id ids sigs q named = record {
  batch = ids;
  named = named;
  some_signature = ground (arith, q.enough);
  distinct = q.distinct;
  members = q.members;
  valid = q.valid;
}

pub attest_batch_intents-IsRecorded :
    (rt : Runtime) (who : ℕ) (ids : List ℕ) (sigs : List Signature) (s s' : State)
    → attest_batch_intents rt who ids sigs s ≡ ok s'
    → IsRecorded rt s s'
unfolding attest_batch_intents
attest_batch_intents-IsRecorded rt who ids sigs s s' h =
    elim (Result-cases (hydrate_intents ids s)) [
      | inl (x, failed) ↦ ground arith
      | inr (es, found) ↦ elim (Bool-cases (all_attested es)) [
        | inl over ↦ let same : s' ≡ s = ground arith in rw same (IsRecorded-refl rt s)
        | inr fresh ↦ elim (Result-cases (attest_entries es sigs 0 s)) [
          | inl (x, failed) ↦ absurd (ground arith)
          | inr (t, done) ↦
              let payload = attest_batch_intents_payload rt rt.chain_id ids in
              let q = (verify_threshold_signatures_iff rt s payload who sigs).0 (ground arith) in
              let kept = attest_entries_kept es sigs 0 s t done in
              let sound = hydrate_intents_sound ids s es found in
              record {
                deposits = λ target tx p. ground (arith, kept.0, p);
                identity = λ known e bound. ground (arith, kept.1, e);
                bundles = λ inv. BundlesInv-kept rt t.0 s' (ground arith) (ground arith) (
                    attest_entries-BundlesInv rt es sigs 0 s t inv
                      (λ id e. inr (batch_bundle rt s who id ids sigs q (rw sound.0 at e))) done);
              }
        ]
      ]
    ]
