-- ===== src/Settlement/Pallet/Attested.antt =====
-- The calls on requests and bonds, each as an advance of the pallet's storage
-- (pallets/intent-settlement/src/lib.rs).
use materios_intent_settleme.Common.{
  ℕ, ◌≤◌, ◌≡◌, inl, inr, Bool, List, some, ok, put, arith, Option-cases, Bool-cases, sat_add,
  u64_max,
}
use materios_intent_settleme.Settlement.Evidence.{SettlementEvidence, ExpiryEvidence}
use materios_intent_settleme.Settlement.Types.{Signature, IntentStatus}
use materios_intent_settleme.Settlement.State.{Runtime}
use materios_intent_settleme.Settlement.Currency.{Currency, Chain}
use materios_intent_settleme.Settlement.Attested.{attest_settle, supersede_settlement_request}
use materios_intent_settleme.Settlement.Attested.Batch.{attest_batch_settle, Hydrated}
use materios_intent_settleme.Settlement.Settle.{SettleBatchEntry, settle_entry}
use materios_intent_settleme.Settlement.PolicyExpiry.{
  request_expire_policy, attest_expire_policy, is_expired,
}
use materios_intent_settleme.Settlement.Coverage.{CoverageInv}
use materios_intent_settleme.Settlement.Coverage.Batch.{LoopInv, settle_entry-LoopInv}
use materios_intent_settleme.Settlement.System.Forward.{
  rank, AllForward-move, AllForward-refl, AllForward-set_status,
}
use materios_intent_settleme.Settlement.System.Advances.{Advances, Advances-trans, Advances-of_same}
use materios_intent_settleme.Settlement.System.Finality.{KeepsSettled, KeepsSettled-of_put}
use materios_intent_settleme.Settlement.Solvency.Refund.{IsLogged, discard-IsDiscarded}
use materios_intent_settleme.Settlement.Solvency.Attest.{
  attest_settle-IsPinned, supersede-IsSuperseded,
}
use materios_intent_settleme.Settlement.Solvency.Batch.{
  IsReady, IsEntrySettled, IsBatchAttested, attest_batch_settle-IsBatchAttested,
  settle_hydrated-keeps,
}
use materios_intent_settleme.Settlement.Pallet.Advance.{
  IsAdvance, IsAdvance-trans, IsUntouched-IsAdvance, IsLogged-IsAdvance, IsSettledBy-IsAdvance,
}

pub attest_settle-IsAdvance :
    {L : Type 0} (rt : Runtime) (who id : ℕ) (sigs : List Signature) (ch ch' : Chain L)
    → attest_settle rt who id sigs ch ≡ ok ch'
    → IsAdvance ch.pallet ch'.pallet
attest_settle-IsAdvance rt who id sigs ch ch' h =
    let x = attest_settle-IsPinned rt who id sigs ch ch' h in
    IsSettledBy-IsAdvance id _ _ x.1 ch.pallet ch'.pallet x.3

pub supersede-IsAdvance :
    {L : Type 0} (currency : Currency L) (rt : Runtime) (who id : ℕ) (direct : Bool)
    (evidence : SettlementEvidence) (sigs : List Signature) (ch ch' : Chain L)
    → supersede_settlement_request currency rt who id direct evidence sigs ch ≡ ok ch'
    → IsAdvance ch.pallet ch'.pallet
supersede-IsAdvance currency rt who id direct evidence sigs ch ch' h =
    let x = supersede-IsSuperseded currency rt who id direct evidence sigs ch ch' h in
    let d = discard-IsDiscarded currency rt id x.request ch x.between x.discarded in
    IsAdvance-trans ch.pallet x.between.pallet ch'.pallet
      (IsLogged-IsAdvance ch.pallet x.between.pallet d.logged)
      (IsSettledBy-IsAdvance id _ direct x.claim x.between.pallet ch'.pallet x.settled)

-- The loop's invariant for one ready entry, by that of the legacy batch.
entry-LoopInv :
    {L : Type 0} (ids : List ℕ) (h : Hydrated) (ch ch' : Chain L) (total : ℕ) (r : IsReady ch h)
    → IsEntrySettled h r.claim r.request ch ch'
    → LoopInv ids ch.pallet total
    → LoopInv ids ch'.pallet (sat_add u64_max total h.amount)
unfolding settle_entry
entry-LoopInv ids h ch ch' total r x inv =
    let e : SettleBatchEntry = record {
      claim_id = h.bytes.claim_id;
      cardano_tx_hash = h.bytes.cardano_tx_hash;
      settled_direct = h.direct;
    } in
    let legacy = settle_entry-LoopInv ids ch.pallet total e r.claim inv (r.was, r.was_open) in
    record {
      index = rw x.claims legacy.index;
      backed = rw (x.claims, x.pool, r.amount) legacy.backed;
      bounded = rw x.pool inv.bounded;
      paired = rw (x.claims, x.vouchers) legacy.paired;
    }

batch-CoverageInv :
    {L : Type 0} (ids : List ℕ) (ch ch' : Chain L)
    → IsBatchAttested ids ch ch'
    → CoverageInv ch.pallet
    → CoverageInv ch'.pallet
batch-CoverageInv ids ch ch' b inv =
    let start : LoopInv inv.ids ch.pallet 0 = record {
      index = inv.index;
      backed = omega (arith, inv.backed);
      bounded = inv.bounded;
      paired = inv.paired;
    } in
    let kept =
      settle_hydrated-keeps (λ total t. LoopInv inv.ids t.pallet total)
        (λ h t t' total r x i. entry-LoopInv inv.ids h t t' total r x i) b.hydrated 0 0 ch
        (b.looped, b.total, b.direct) b.distinct b.ready start b.ran in
    record {
      ids = inv.ids;
      index = rw b.claims kept.index;
      backed = rw (b.claims, b.coverage) (omega (arith, kept.backed));
      bounded = omega (arith, b.coverage, kept.bounded);
      paired = rw (b.claims, b.vouchers) kept.paired;
    }

batch-KeepsSettled :
    {L : Type 0} (ids : List ℕ) (ch ch' : Chain L)
    → IsBatchAttested ids ch ch'
    → KeepsSettled ch.pallet ch'.pallet
batch-KeepsSettled ids ch ch' b = rw b.claims (
    settle_hydrated-keeps (λ total t. KeepsSettled ch.pallet t.pallet)
      (λ h t t' total r x so_far id c was done.
        KeepsSettled-of_put t.pallet t'.pallet h.bytes.claim_id _ x.claims
          (λ d there is_done. ground (arith, r.was, r.was_open)) id c (so_far id c was done) done)
      b.hydrated 0 0 ch (b.looped, b.total, b.direct) b.distinct b.ready (λ id c was done. was)
      b.ran)

batch-Advances :
    {L : Type 0} (ids : List ℕ) (ch ch' : Chain L)
    → IsBatchAttested ids ch ch'
    → Advances ch.pallet ch'.pallet
batch-Advances ids ch ch' b = rw b.intents (
    settle_hydrated-keeps (λ total t. Advances ch.pallet t.pallet)
      (λ h t t' total r x so_far.
        Advances-trans ch.pallet t.pallet t'.pallet so_far
          (rw x.intents (AllForward-set_status t.pallet.intents r.claim.intent_id)))
      b.hydrated 0 0 ch (b.looped, b.total, b.direct) b.distinct b.ready
      (AllForward-refl ch.pallet.intents) b.ran)

pub attest_batch_settle-IsAdvance :
    {L : Type 0} (rt : Runtime) (who : ℕ) (ids : List ℕ) (sigs : List Signature) (ch ch' : Chain L)
    → attest_batch_settle rt who ids sigs ch ≡ ok ch'
    → IsAdvance ch.pallet ch'.pallet
attest_batch_settle-IsAdvance rt who ids sigs ch ch' h =
    let b = attest_batch_settle-IsBatchAttested rt who ids sigs ch ch' h in
    record {
      coverage = batch-CoverageInv ids ch ch' b;
      settled = λ inv. batch-KeepsSettled ids ch ch' b;
      forward = batch-Advances ids ch ch' b;
    }

-- A request of an expiry writes nothing of the pallet's maps but the request.
pub request_expire_policy-IsLogged :
    {L : Type 0} (rt : Runtime) (who id tx : ℕ) (evidence : ExpiryEvidence) (ch ch' : Chain L)
    → request_expire_policy rt who id tx evidence ch ≡ ok ch'
    → IsLogged ch.pallet ch'.pallet
unfolding request_expire_policy
request_expire_policy-IsLogged rt who id tx evidence ch ch' h = record {
  claims = ground arith;
  vouchers = ground arith;
  intents = ground arith;
  pool = ground arith;
  block = ground arith;
}

pub attest_expire_policy-Advances :
    {L : Type 0} (rt : Runtime) (who id : ℕ) (sigs : List Signature) (ch ch' : Chain L)
    → attest_expire_policy rt who id sigs ch ≡ ok ch'
    → Advances ch.pallet ch'.pallet
unfolding attest_expire_policy
attest_expire_policy-Advances rt who id sigs ch ch' h = elim (Option-cases (ch.pallet.intents id)) [
  | inl missing ↦ ground arith
  | inr (i, e) ↦ elim (Bool-cases (is_expired i.status)) [
    | inl over ↦ Advances-of_same ch.pallet ch'.pallet (ground arith)
    | inr alive ↦
        let stored : ch'.pallet.intents
            ≡ put ch.pallet.intents id (some (record i { status = IntentStatus.expired })) =
          ground arith in
        let earlier : rank i.status ≤ 4 = ground arith in
        rw stored (AllForward-move ch.pallet.intents id i IntentStatus.expired e earlier)
  ]
]

pub attest_expire_policy-IsAdvance :
    {L : Type 0} (rt : Runtime) (who id : ℕ) (sigs : List Signature) (ch ch' : Chain L)
    → attest_expire_policy rt who id sigs ch ≡ ok ch'
    → IsAdvance ch.pallet ch'.pallet
unfolding attest_expire_policy
attest_expire_policy-IsAdvance rt who id sigs ch ch' h =
    IsUntouched-IsAdvance ch.pallet ch'.pallet
      (record { claims = ground arith; vouchers = ground arith; coverage = ground arith })
      (attest_expire_policy-Advances rt who id sigs ch ch' h)
