-- ===== src/Settlement/Pallet/Records.antt =====
-- What the batched and the attested calls leave of the pallet's records of deposits, of the Cardano
-- identity and of attestations (pallets/intent-settlement/src/lib.rs).
use materios_intent_settleme.Common.{
  ℕ, ◌≡◌, inl, inr, List, [], ◌∷◌, ok, arith, Result-cases, sat_add, u32_max, u64_max,
  if◌then◌else◌,
}
use materios_intent_settleme.Settlement.Types.{Signature, IntentKind}
use materios_intent_settleme.Settlement.Evidence.{ExpiryEvidence}
use materios_intent_settleme.Settlement.State.{Runtime, State}
use materios_intent_settleme.Settlement.Currency.{Chain}
use materios_intent_settleme.Settlement.Payloads.Batched.{VoucherTuple}
use materios_intent_settleme.Settlement.Submit.{do_submit_intent}
use materios_intent_settleme.Settlement.Cardano.{cardano_ids}
use materios_intent_settleme.Settlement.Attested.{attest_settle}
use materios_intent_settleme.Settlement.Attested.Batch.{
  Hydrated, settle_hydrated_entry, settle_hydrated, hydrate_requests, attest_batch_settle,
}
use materios_intent_settleme.Settlement.PolicyExpiry.{request_expire_policy, attest_expire_policy}
use materios_intent_settleme.Settlement.Batches.{submit_entries, submit_batch_intents}
use materios_intent_settleme.Settlement.Batches.Vouchers.{
  RequestVoucherEntry, mint_entry, mint_entries, tuples_of, request_batch_vouchers,
}
use materios_intent_settleme.Settlement.System.Records.{
  KeepsRecords, KeepsRecords-trans, do_submit_intent-KeepsRecords,
}

submit_entries-KeepsRecords :
    (rt : Runtime) (who : ℕ) (entries : List IntentKind) (s s' : State)
    → submit_entries rt who entries s ≡ ok s'
    → KeepsRecords s s'
unfolding submit_entries
submit_entries-KeepsRecords rt who [] s s' h = ground arith
submit_entries-KeepsRecords rt who (kind ∷ rest) s s' h =
    elim (Result-cases (do_submit_intent rt who kind s)) [
      | inl (x, failed) ↦ ground arith
      | inr ((id, t), done) ↦
          KeepsRecords-trans s t s' (do_submit_intent-KeepsRecords rt who kind s id t done)
            (submit_entries-KeepsRecords rt who rest t s' (ground arith))
    ]

pub submit_batch_intents-KeepsRecords :
    (rt : Runtime) (who : ℕ) (entries : List IntentKind) (s s' : State)
    → submit_batch_intents rt who entries s ≡ ok s'
    → KeepsRecords s s'
unfolding submit_batch_intents
submit_batch_intents-KeepsRecords rt who entries s s' h =
    elim (Result-cases (submit_entries rt who entries s)) [
      | inl (x, failed) ↦ ground arith
      | inr (t, done) ↦
          KeepsRecords-trans s t s' (submit_entries-KeepsRecords rt who entries s t done)
            (ground arith)
    ]

mint_entry-KeepsRecords :
    (e : RequestVoucherEntry) (t : VoucherTuple) (s s' : State)
    → mint_entry e t s ≡ ok s'
    → KeepsRecords s s'
unfolding mint_entry
mint_entry-KeepsRecords e t s s' h = ground arith

mint_entries-KeepsRecords :
    (pairs : List (RequestVoucherEntry × VoucherTuple)) (total : ℕ) (s : State) (r : State × ℕ)
    → mint_entries pairs total s ≡ ok r
    → KeepsRecords s r.0
unfolding mint_entries
mint_entries-KeepsRecords [] total s r h = ground arith
mint_entries-KeepsRecords ((e, t) ∷ rest) total s r h = elim (Result-cases (mint_entry e t s)) [
  | inl (x, failed) ↦ ground arith
  | inr (s', done) ↦ KeepsRecords-trans s s' r.0 (mint_entry-KeepsRecords e t s s' done) (
      mint_entries-KeepsRecords rest (sat_add u64_max total e.voucher.amount_ada) s' r
        (ground arith))
]

pub request_batch_vouchers-KeepsRecords :
    (rt : Runtime) (who : ℕ) (entries : List RequestVoucherEntry) (sigs : List Signature)
    (s s' : State)
    → request_batch_vouchers rt who entries sigs s ≡ ok s'
    → KeepsRecords s s'
unfolding request_batch_vouchers
request_batch_vouchers-KeepsRecords rt who entries sigs s s' h =
    elim (Result-cases (cardano_ids s)) [
      | inl (x, failed) ↦ ground arith
      | inr (cardano, found) ↦ elim (Result-cases (tuples_of rt cardano s entries)) [
        | inl (x, failed) ↦ ground arith
        | inr (pairs, hydrated) ↦ elim (Result-cases (mint_entries pairs 0 s)) [
          | inl (x, failed) ↦ ground arith
          | inr (t, done) ↦
              KeepsRecords-trans s t.0 s' (mint_entries-KeepsRecords pairs 0 s t done)
                (ground arith)
        ]
      ]
    ]

pub attest_settle-KeepsRecords :
    {L : Type 0} (rt : Runtime) (who id : ℕ) (sigs : List Signature) (ch ch' : Chain L)
    → attest_settle rt who id sigs ch ≡ ok ch'
    → KeepsRecords ch.pallet ch'.pallet
unfolding attest_settle
attest_settle-KeepsRecords rt who id sigs ch ch' h = ground arith

pub request_expire_policy-KeepsRecords :
    {L : Type 0} (rt : Runtime) (who id tx : ℕ) (evidence : ExpiryEvidence) (ch ch' : Chain L)
    → request_expire_policy rt who id tx evidence ch ≡ ok ch'
    → KeepsRecords ch.pallet ch'.pallet
unfolding request_expire_policy
request_expire_policy-KeepsRecords rt who id tx evidence ch ch' h = ground arith

pub attest_expire_policy-KeepsRecords :
    {L : Type 0} (rt : Runtime) (who id : ℕ) (sigs : List Signature) (ch ch' : Chain L)
    → attest_expire_policy rt who id sigs ch ≡ ok ch'
    → KeepsRecords ch.pallet ch'.pallet
unfolding attest_expire_policy
attest_expire_policy-KeepsRecords rt who id sigs ch ch' h = ground arith

settle_hydrated_entry-KeepsRecords :
    {L : Type 0} (h : Hydrated) (ch ch' : Chain L)
    → settle_hydrated_entry h ch ≡ ok ch'
    → KeepsRecords ch.pallet ch'.pallet
unfolding settle_hydrated_entry
settle_hydrated_entry-KeepsRecords h ch ch' e = ground arith

settle_hydrated-KeepsRecords :
    {L : Type 0} (hs : List Hydrated) (total direct : ℕ) (ch : Chain L) (out : Chain L × ℕ × ℕ)
    → settle_hydrated hs total direct ch ≡ ok out
    → KeepsRecords ch.pallet out.0.pallet
unfolding settle_hydrated
settle_hydrated-KeepsRecords [] total direct ch out e = ground arith
settle_hydrated-KeepsRecords (h ∷ hs) total direct ch out e =
    elim (Result-cases (settle_hydrated_entry h ch)) [
      | inl (x, failed) ↦ ground arith
      | inr (t, done) ↦
          KeepsRecords-trans ch.pallet t.pallet out.0.pallet
            (settle_hydrated_entry-KeepsRecords h ch t done)
            (settle_hydrated-KeepsRecords hs (sat_add u64_max total h.amount)
              (if h.direct then sat_add u32_max direct 1 else direct) t out (ground arith))
    ]

pub attest_batch_settle-KeepsRecords :
    {L : Type 0} (rt : Runtime) (who : ℕ) (ids : List ℕ) (sigs : List Signature) (ch ch' : Chain L)
    → attest_batch_settle rt who ids sigs ch ≡ ok ch'
    → KeepsRecords ch.pallet ch'.pallet
unfolding attest_batch_settle
attest_batch_settle-KeepsRecords rt who ids sigs ch ch' h =
    elim (Result-cases (cardano_ids ch.pallet)) [
      | inl (x, failed) ↦ ground arith
      | inr (cardano, found) ↦ elim (Result-cases (hydrate_requests rt cardano ch ids)) [
        | inl (x, failed) ↦ ground arith
        | inr (hs, hydrated) ↦ elim (Result-cases (settle_hydrated hs 0 0 ch)) [
          | inl (x, failed) ↦ ground arith
          | inr (out, done) ↦
              KeepsRecords-trans ch.pallet out.0.pallet ch'.pallet
                (settle_hydrated-KeepsRecords hs 0 0 ch out done) (ground arith)
        ]
      ]
    ]
