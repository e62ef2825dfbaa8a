-- ===== src/Settlement/Pallet/Kept.antt =====
-- What each call of the whole pallet keeps (pallets/intent-settlement/src/lib.rs).
use materios_intent_settleme.Common.{
  ℕ, ◌≡◌, refl, inl, inr, Bool, true, false, List, ok, arith, Result, Option-cases, Result-cases,
}
use materios_intent_settleme.Settlement.Evidence.{ExpiryEvidence}
use materios_intent_settleme.Settlement.Types.{Signature, Error}
use materios_intent_settleme.Settlement.State.{Runtime, State}
use materios_intent_settleme.Settlement.Currency.{Currency, Chain}
use materios_intent_settleme.Settlement.Attested.{on_pallet}
use materios_intent_settleme.Settlement.PolicyExpiry.{request_expire_policy, attest_expire_policy}
use materios_intent_settleme.Settlement.Coverage.{CoverageInv}
use materios_intent_settleme.Settlement.System.{dispatch}
use materios_intent_settleme.Settlement.System.Coverage.{is_pool_call}
use materios_intent_settleme.Settlement.System.Finality.{KeepsSettled}
use materios_intent_settleme.Settlement.Solvency.{SolvencyInv}
use materios_intent_settleme.Settlement.Solvency.Change.{KeepsSettlement, aside-SolvencyInv}
use materios_intent_settleme.Settlement.Solvency.Refund.{IsLogged}
use materios_intent_settleme.Settlement.Solvency.Post.{
  request_settle-SolvencyInv, request_batch_settle-SolvencyInv, post_settlement_bond-SolvencyInv,
}
use materios_intent_settleme.Settlement.Solvency.Attest.{
  attest_settle-SolvencyInv, supersede-SolvencyInv,
}
use materios_intent_settleme.Settlement.Solvency.Batch.{attest_batch_settle-SolvencyInv}
use materios_intent_settleme.Settlement.Solvency.Slash.{slash-SolvencyInv}
use materios_intent_settleme.Settlement.Solvency.Release.{release-SolvencyInv}
use materios_intent_settleme.Settlement.Pallet.{PalletCall, lift, dispatch_call}
use materios_intent_settleme.Settlement.Pallet.Advance.{
  IsAdvance, dispatch-IsAdvance, IsLogged-IsAdvance,
}
use materios_intent_settleme.Settlement.Pallet.Attested.{
  attest_settle-IsAdvance, supersede-IsAdvance, attest_batch_settle-IsAdvance,
  request_expire_policy-IsLogged, attest_expire_policy-IsAdvance,
}
use materios_intent_settleme.Settlement.Pallet.Batched.{submit_batch_intents-IsAdvance}
use materios_intent_settleme.Settlement.Pallet.BatchAttest.{attest_batch_intents-IsAdvance}
use materios_intent_settleme.Settlement.Pallet.BatchMint.{request_batch_vouchers-IsBatchMinted}

-- The root's own setting of the pool.
abbrev pub sets_pool : PalletCall → Bool
sets_pool (PalletCall.calls c) = is_pool_call c
sets_pool _ = false

pub lift-ok :
    {L : Type 0} (r : Result Error State) (ch ch' : Chain L)
    → lift r ch ≡ ok ch'
    → (s : State) × (r ≡ ok s) × (ch' ≡ on_pallet s ch)
lift-ok r ch ch' h = elim (Result-cases r) [
  | inl (e, failed) ↦ ground arith
  | inr (s, done) ↦ (s, done, ground arith)
]

KeepsSettlement-of_settled : (s s' : State) → KeepsSettled s s' → KeepsSettlement s.claims s'.claims
KeepsSettlement-of_settled s s' keep id done = elim (Option-cases (s.claims id)) [
  | inl missing ↦ absurd (rw missing at done)
  | inr (c, was) ↦ let flag : c.is_settled ≡ true = rw was at done in rw (keep id c was flag) flag
]

module _ {L : Type 0} (currency : Currency L) (rt : Runtime) where
  -- The coverage is backed by the open claims, and the bonds by the reserve.
  pub record PalletInv (ch : Chain L) : Type 0 where
    pub coverage : CoverageInv ch.pallet
    pub solvent : SolvencyInv currency rt ch

  -- What a call that succeeds has kept.
  pub record IsKept (ch ch' : Chain L) : Type 0 where
    pub advance : IsAdvance ch.pallet ch'.pallet
    pub solvent : SolvencyInv currency rt ch'

  lifted-IsKept :
      (r : Result Error State) (ch ch' : Chain L)
      → PalletInv ch
      → lift r ch ≡ ok ch'
      → ((s : State) → r ≡ ok s → IsAdvance ch.pallet s)
      → IsKept ch ch'
  lifted-IsKept r ch ch' inv h advance =
      let x = lift-ok r ch ch' h in
      let a = advance x.0 x.1 in
      rw x.2 (record {
        advance = a;
        solvent =
            aside-SolvencyInv currency rt ch (on_pallet x.0 ch) inv.solvent refl refl refl refl
              (KeepsSettlement-of_settled ch.pallet x.0 (a.settled inv.coverage));
      })

  logged-IsKept :
      (ch ch' : Chain L)
      → SolvencyInv currency rt ch' × IsLogged ch.pallet ch'.pallet
      → IsKept ch ch'
  logged-IsKept ch ch' x = record {
    advance = IsLogged-IsAdvance ch.pallet ch'.pallet x.1;
    solvent = x.0;
  }

  request_expire_policy-IsKept :
      (who id tx : ℕ) (evidence : ExpiryEvidence) (ch ch' : Chain L)
      → PalletInv ch
      → request_expire_policy rt who id tx evidence ch ≡ ok ch'
      → IsKept ch ch'
  unfolding request_expire_policy
  request_expire_policy-IsKept who id tx evidence ch ch' inv h =
      let x = request_expire_policy-IsLogged rt who id tx evidence ch ch' h in
      logged-IsKept ch ch' (
        aside-SolvencyInv currency rt ch ch' inv.solvent (ground arith) (ground arith)
            (ground arith) (ground arith) (λ j. rw x.claims (λ c. c)),
        x,
      )

  attest_expire_policy-IsKept :
      (who id : ℕ) (sigs : List Signature) (ch ch' : Chain L)
      → PalletInv ch
      → attest_expire_policy rt who id sigs ch ≡ ok ch'
      → IsKept ch ch'
  unfolding attest_expire_policy
  attest_expire_policy-IsKept who id sigs ch ch' inv h =
      let a = attest_expire_policy-IsAdvance rt who id sigs ch ch' h in
      record {
        advance = a;
        solvent =
            aside-SolvencyInv currency rt ch ch' inv.solvent (ground arith) (ground arith)
              (ground arith) (ground arith)
              (KeepsSettlement-of_settled ch.pallet ch'.pallet (a.settled inv.coverage));
      }

  pub dispatch_call-IsKept :
      (c : PalletCall) (ch ch' : Chain L)
      → sets_pool c ≡ false
      → PalletInv ch
      → dispatch_call currency rt c ch ≡ ok ch'
      → IsKept ch ch'
  unfolding dispatch_call
  dispatch_call-IsKept (PalletCall.calls c) ch ch' l inv h =
      lifted-IsKept (dispatch rt c ch.pallet) ch ch' inv h
        (λ s. dispatch-IsAdvance rt c ch.pallet s l)
  dispatch_call-IsKept (PalletCall.submits_batch who entries) ch ch' l inv h =
      lifted-IsKept _ ch ch' inv h (λ s. submit_batch_intents-IsAdvance rt who entries ch.pallet s)
  dispatch_call-IsKept (PalletCall.attests_batch who ids sigs) ch ch' l inv h =
      lifted-IsKept _ ch ch' inv h (λ s. attest_batch_intents-IsAdvance rt who ids sigs ch.pallet s)
  dispatch_call-IsKept (PalletCall.mints_batch who entries sigs) ch ch' l inv h =
      lifted-IsKept _ ch ch' inv h λ s done.
        (request_batch_vouchers-IsBatchMinted rt who entries sigs ch.pallet s done).minted.advance
  dispatch_call-IsKept (PalletCall.requests_settle who id tx direct evidence bond) ch ch' l inv h =
      logged-IsKept ch ch'
        (request_settle-SolvencyInv currency rt who id tx direct evidence bond ch ch' inv.solvent h)
  dispatch_call-IsKept (PalletCall.attests_settle who id sigs) ch ch' l inv h = record {
    advance = attest_settle-IsAdvance rt who id sigs ch ch' h;
    solvent = attest_settle-SolvencyInv currency rt who id sigs ch ch' inv.solvent h;
  }
  dispatch_call-IsKept (PalletCall.supersedes who id direct evidence sigs) ch ch' l inv h = record {
    advance = supersede-IsAdvance currency rt who id direct evidence sigs ch ch' h;
    solvent = supersede-SolvencyInv currency rt who id direct evidence sigs ch ch' inv.solvent h;
  }
  dispatch_call-IsKept (PalletCall.requests_batch_settle who entries bond) ch ch' l inv h =
      logged-IsKept ch ch'
        (request_batch_settle-SolvencyInv currency rt who entries bond ch ch' inv.solvent h)
  dispatch_call-IsKept (PalletCall.attests_batch_settle who ids sigs) ch ch' l inv h = record {
    advance = attest_batch_settle-IsAdvance rt who ids sigs ch ch' h;
    solvent = attest_batch_settle-SolvencyInv currency rt who ids sigs ch ch' inv.solvent h;
  }
  dispatch_call-IsKept (PalletCall.requests_expiry who id tx evidence) ch ch' l inv h =
      request_expire_policy-IsKept who id tx evidence ch ch' inv h
  dispatch_call-IsKept (PalletCall.attests_expiry who id sigs) ch ch' l inv h =
      attest_expire_policy-IsKept who id sigs ch ch' inv h
  dispatch_call-IsKept (PalletCall.posts_bond who id amount) ch ch' l inv h =
      logged-IsKept ch ch'
        (post_settlement_bond-SolvencyInv currency rt who id amount ch ch' inv.solvent h)
  dispatch_call-IsKept (PalletCall.slashes who id proof sigs) ch ch' l inv h =
      logged-IsKept ch ch' (slash-SolvencyInv currency rt who id proof sigs ch ch' inv.solvent h)
  dispatch_call-IsKept (PalletCall.releases_bond id) ch ch' l inv h =
      logged-IsKept ch ch' (release-SolvencyInv currency rt id ch ch' inv.solvent h)
