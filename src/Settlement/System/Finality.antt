-- ===== src/Settlement/System/Finality.antt =====
-- What a history cannot undo: a settled claim, and a processed deposit.
use materios_intent_settleme.Common.{
  ℕ, ap, ◌∙◌, ◌≡◌, refl, inl, inr, true, false, List, [], ◌∷◌, Option, some, ok, arith, All, put,
  put-elim, Bool-cases, contains,
}
use materios_intent_settleme.Settlement.Types.{Claim}
use materios_intent_settleme.Settlement.State.{Runtime, State}
use materios_intent_settleme.Settlement.Voucher.{claim_of}
use materios_intent_settleme.Settlement.Coverage.{CoverageInv}
use materios_intent_settleme.Settlement.Coverage.Mint.{request_voucher-IsMinted}
use materios_intent_settleme.Settlement.Coverage.Pay.{settle_claim-cases}
use materios_intent_settleme.Settlement.Coverage.Batch.{
  settle_batch_atomic-IsBatchSettled, settle_entries-others, pair_ids, IsDue, Pair,
}
use materios_intent_settleme.Settlement.System.{Call, dispatch, step, run, step-keeps}
use materios_intent_settleme.Settlement.System.Coverage.{
  is_pool_call, dispatch-CoverageInv, dispatch-IsUntouched, set_pool_utilization-claims,
}

-- A claim that is settled stays as it is.
abbrev pub IsFinal : Option Claim → Option Claim → Type 0
IsFinal o o' = (c : Claim) → o ≡ some c → c.is_settled ≡ true → o' ≡ some c

abbrev pub KeepsSettled : State → State → Type 0
KeepsSettled s s' = (id : ℕ) → IsFinal (s.claims id) (s'.claims id)

pub KeepsSettled-of_put :
    (s s' : State) (k : ℕ) (o : Option Claim)
    → s'.claims ≡ put s.claims k o
    → ((c : Claim) → s.claims k ≡ some c → c.is_settled ≡ true → ⊥)
    → KeepsSettled s s'
KeepsSettled-of_put s s' k o e unsettled = rw e (
    put-elim (λ id x. IsFinal (s.claims id) x) s.claims k o (λ id c was done. was)
      (λ c was done. absurd (unsettled c was done)))

due_not_settled :
    (claims : ℕ → Option Claim) (id : ℕ) (c : Claim) (pairs : List Pair)
    → contains (pair_ids pairs) id ≡ true
    → All (IsDue claims) pairs
    → claims id ≡ some c
    → c.is_settled ≡ true
    → ⊥
due_not_settled claims id c [] mine due was done = cc
due_not_settled claims id c ((e, x) ∷ rest) mine due was done =
    ground (arith, due.0.0, due.0.1, due_not_settled claims id c rest)

pub dispatch-KeepsSettled :
    (rt : Runtime) (c : Call) (s s' : State)
    → CoverageInv s
    → dispatch rt c s ≡ ok s'
    → KeepsSettled s s'
unfolding dispatch
dispatch-KeepsSettled rt (Call.mints who claim_id id v proof sigs) s s' inv h =
    let m = request_voucher-IsMinted rt who claim_id id v proof sigs s s' h in
    KeepsSettled-of_put s s' claim_id (some (claim_of id v)) m.claims_put
      λ c was done. ground (arith, inv.paired claim_id, m.was_new)
dispatch-KeepsSettled rt (Call.settles who claim_id tx direct sigs) s s' inv h =
    elim (settle_claim-cases rt who claim_id tx direct sigs s s' h) [
      | inl same ↦ rw same (λ id c was done. was)
      | inr (c, p) ↦
          KeepsSettled-of_put s s' claim_id _ p.claims_put
            λ d was done. ground (arith, p.was, p.was_unsettled)
    ]
dispatch-KeepsSettled rt (Call.settles_batch who entries sigs) s s' inv h =
    let b = settle_batch_atomic-IsBatchSettled rt who entries sigs s s' h in
    λ id c was done. elim (Bool-cases (contains (pair_ids b.pairs) id)) [
      | inl mine ↦ absurd (due_not_settled s.claims id c b.pairs mine b.was_due was done)
      | inr other ↦
          ap (λ f. f id) b.claims_looped ∙ settle_entries-others b.pairs 0 0 s id other ∙ was
    ]
dispatch-KeepsSettled rt (Call.sets_pool is_root params) s s' inv h =
    rw (set_pool_utilization-claims is_root params s s' h).0 (λ id c was done. was)
dispatch-KeepsSettled rt c s s' inv h =
    rw (dispatch-IsUntouched rt c s s' refl refl h).claims (λ id x was done. was)

-- Over any history that starts where the coverage matches the claims, and in which the root does
-- not set the pool, a claim that is settled stays exactly as it was settled, with its transaction
-- and its flag.
pub run-KeepsSettled :
    (rt : Runtime) (cs : List Call) (s : State)
    → All (λ c. is_pool_call c ≡ false) cs
    → CoverageInv s
    → KeepsSettled s (run rt cs s)
unfolding run
run-KeepsSettled rt [] s l inv = λ id c was done. was
run-KeepsSettled rt (c ∷ cs) s l inv =
    let first =
      step-keeps (KeepsSettled s) rt c s (λ s' h. dispatch-KeepsSettled rt c s s' inv h)
        (λ id x was done. was) in
    let kept =
      step-keeps CoverageInv rt c s (λ s' h. dispatch-CoverageInv rt c s s' l.0 inv h) inv in
    let rest = run-KeepsSettled rt cs (step rt c s) l.1 kept in
    λ id x was done. rest id x (first id x was done) done
