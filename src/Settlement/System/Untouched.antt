-- ===== src/Settlement/System/Untouched.antt =====
-- The calls that leave the coverage, the claims and the vouchers alone.
use materios_intent_settleme.Common.{
  ℕ, put, u32_max, ◌∙◌, ◌≡◌, refl, inl, inr, Bool, List, [], ◌∷◌, ok, arith, Result-cases,
}
use Prim.Native.Nat.{min}
use materios_intent_settleme.Settlement.Types.{IntentKind, Signature}
use materios_intent_settleme.Settlement.State.{Runtime, State}
use materios_intent_settleme.Settlement.Submit.{
  do_submit_intent, submit_intent, request_credit_refund,
}
use materios_intent_settleme.Settlement.Attest.{attest_intent}
use materios_intent_settleme.Settlement.Expire.{
  expire_intent, expire_intents, on_initialize, expire_policy_mirror,
}
use materios_intent_settleme.Settlement.Deposit.{credit_deposit}
use materios_intent_settleme.Settlement.Threshold.{set_min_signer_threshold}
use materios_intent_settleme.Settlement.Cardano.{bind_aegis_policy_v1}

-- The fields that the invariant reads are left alone.
pub record IsUntouched (s s' : State) : Type 0 where
  pub claims : s'.claims ≡ s.claims
  pub vouchers : s'.vouchers ≡ s.vouchers
  pub coverage : s'.pool.outstanding_coverage_ada ≡ s.pool.outstanding_coverage_ada

pub do_submit_intent-IsUntouched :
    (rt : Runtime) (who : ℕ) (kind : IntentKind) (s : State) (id : ℕ) (s' : State)
    → do_submit_intent rt who kind s ≡ ok (id, s')
    → IsUntouched s s'
unfolding do_submit_intent
do_submit_intent-IsUntouched rt who (IntentKind.buy_policy a b c d e) s id s' h = record {
  claims = ground arith;
  vouchers = ground arith;
  coverage = ground arith;
}
do_submit_intent-IsUntouched rt who kind s id s' h = record {
  claims = ground arith;
  vouchers = ground arith;
  coverage = ground arith;
}

pub submit_intent-IsUntouched :
    (rt : Runtime) (who : ℕ) (kind : IntentKind) (s s' : State)
    → submit_intent rt who kind s ≡ ok s'
    → IsUntouched s s'
unfolding submit_intent
submit_intent-IsUntouched rt who kind s s' h =
    elim (Result-cases (do_submit_intent rt who kind s)) [
      | inl (e, failed) ↦ ground arith
      | inr ((id, t), done) ↦
          let u = do_submit_intent-IsUntouched rt who kind s id t done in
          ground (arith, u.claims, u.vouchers, u.coverage)
    ]

pub request_credit_refund-IsUntouched :
    (rt : Runtime) (who amount : ℕ) (s s' : State)
    → request_credit_refund rt who amount s ≡ ok s'
    → IsUntouched s s'
unfolding request_credit_refund
request_credit_refund-IsUntouched rt who amount s s' h =
    elim (Result-cases (do_submit_intent rt who (IntentKind.refund_credit amount) s)) [
      | inl (e, failed) ↦ ground arith
      | inr ((id, t), done) ↦
          let u = do_submit_intent-IsUntouched rt who _ s id t done in
          ground (arith, u.claims, u.vouchers, u.coverage)
    ]

pub attest_intent-IsUntouched :
    (rt : Runtime) (who id pubkey sig : ℕ) (s s' : State)
    → attest_intent rt who id pubkey sig s ≡ ok s'
    → IsUntouched s s'
unfolding attest_intent
attest_intent-IsUntouched rt who id pubkey sig s s' h = record {
  claims = ground arith;
  vouchers = ground arith;
  coverage = ground arith;
}

pub expire_policy_mirror-IsUntouched :
    (rt : Runtime) (who id : ℕ) (s s' : State)
    → expire_policy_mirror rt who id s ≡ ok s'
    → IsUntouched s s'
unfolding expire_policy_mirror
expire_policy_mirror-IsUntouched rt who id s s' h = record {
  claims = ground arith;
  vouchers = ground arith;
  coverage = ground arith;
}

pub credit_deposit-IsUntouched :
    (rt : Runtime) (who target amount tx : ℕ) (sigs : List Signature) (s s' : State)
    → credit_deposit rt who target amount tx sigs s ≡ ok s'
    → IsUntouched s s'
unfolding credit_deposit
credit_deposit-IsUntouched rt who target amount tx sigs s s' h = record {
  claims = ground arith;
  vouchers = ground arith;
  coverage = ground arith;
}

pub set_min_signer_threshold-IsUntouched :
    (rt : Runtime) (is_root : Bool) (floor : ℕ) (s s' : State)
    → set_min_signer_threshold rt is_root floor s ≡ ok s'
    → IsUntouched s s'
unfolding set_min_signer_threshold
set_min_signer_threshold-IsUntouched rt is_root floor s s' h = record {
  claims = ground arith;
  vouchers = ground arith;
  coverage = ground arith;
}

pub bind_aegis_policy_v1-IsUntouched :
    (is_root : Bool) (hash : ℕ) (s s' : State)
    → bind_aegis_policy_v1 is_root hash s ≡ ok s'
    → IsUntouched s s'
unfolding bind_aegis_policy_v1
bind_aegis_policy_v1-IsUntouched is_root hash s s' h = record {
  claims = ground arith;
  vouchers = ground arith;
  coverage = ground arith;
}

expire_intent-IsUntouched : (id : ℕ) (s : State) → IsUntouched s (expire_intent id s)
unfolding expire_intent
expire_intent-IsUntouched id s = record {
  claims = ground arith;
  vouchers = ground arith;
  coverage = ground arith;
}

expire_intents-IsUntouched : (ids : List ℕ) (s : State) → IsUntouched s (expire_intents ids s)
unfolding expire_intents
expire_intents-IsUntouched [] s = record { claims = refl; vouchers = refl; coverage = refl }
expire_intents-IsUntouched (id ∷ ids) s =
    let one = expire_intent-IsUntouched id s in
    let rest = expire_intents-IsUntouched ids (expire_intent id s) in
    record {
      claims = rest.claims ∙ one.claims;
      vouchers = rest.vouchers ∙ one.vouchers;
      coverage = rest.coverage ∙ one.coverage;
    }

pub begin_block-IsUntouched :
    (n : ℕ) (s : State)
    → IsUntouched s (on_initialize n (record s { block_number = n; events = [] }))
unfolding on_initialize
begin_block-IsUntouched n s =
    let n_u32 = min n u32_max in
    let t = record s {
      block_number = n;
      events = [];
      expiry_queue = put s.expiry_queue n_u32 [];
    } in
    let u = expire_intents-IsUntouched (s.expiry_queue n_u32) t in
    record { claims = u.claims; vouchers = u.vouchers; coverage = u.coverage }
