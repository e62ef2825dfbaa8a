-- ===== src/Settlement/Pallet/Advance.antt =====
-- What every call does to the pallet's own storage: the coverage stays backed, settled claims stay,
-- intents move forward (pallets/intent-settlement/src/lib.rs).
use materios_intent_settleme.Common.{ℕ, ap, ◌≡◌, Bool, false, ok, arith}
use materios_intent_settleme.Settlement.Types.{Claim}
use materios_intent_settleme.Settlement.State.{Runtime, State}
use materios_intent_settleme.Settlement.Coverage.{CoverageInv}
use materios_intent_settleme.Settlement.Coverage.Pay.{IsPaid, IsPaid-CoverageInv}
use materios_intent_settleme.Settlement.System.{Call, dispatch}
use materios_intent_settleme.Settlement.System.Untouched.{IsUntouched}
use materios_intent_settleme.Settlement.System.Coverage.{
  is_pool_call, IsUntouched-CoverageInv, dispatch-CoverageInv,
}
use materios_intent_settleme.Settlement.System.Forward.{AllForward-set_status, AllForward-refl}
use materios_intent_settleme.Settlement.System.Advances.{Advances, Advances-of_same, Advances-trans}
use materios_intent_settleme.Settlement.System.Progress.{dispatch-Advances}
use materios_intent_settleme.Settlement.System.Finality.{
  KeepsSettled, KeepsSettled-of_put, dispatch-KeepsSettled,
}
use materios_intent_settleme.Settlement.Solvency.Refund.{IsLogged}
use materios_intent_settleme.Settlement.Solvency.Attest.{IsSettledBy}

pub record IsAdvance (s s' : State) : Type 0 where
  pub coverage : CoverageInv s → CoverageInv s'
  pub settled : CoverageInv s → KeepsSettled s s'
  pub forward : Advances s s'

pub IsAdvance-refl : (s : State) → IsAdvance s s
IsAdvance-refl s = record {
  coverage = λ inv. inv;
  settled = λ inv id c was done. was;
  forward = AllForward-refl s.intents;
}

pub IsAdvance-trans : (s t u : State) → IsAdvance s t → IsAdvance t u → IsAdvance s u
IsAdvance-trans s t u x y = record {
  coverage = λ inv. y.coverage (x.coverage inv);
  settled = λ inv id c was done. y.settled (x.coverage inv) id c (x.settled inv id c was done) done;
  forward = Advances-trans s t u x.forward y.forward;
}

pub dispatch-IsAdvance :
    (rt : Runtime) (c : Call) (s s' : State)
    → is_pool_call c ≡ false
    → dispatch rt c s ≡ ok s'
    → IsAdvance s s'
dispatch-IsAdvance rt c s s' l h = record {
  coverage = λ inv. dispatch-CoverageInv rt c s s' l inv h;
  settled = λ inv. dispatch-KeepsSettled rt c s s' inv h;
  forward = dispatch-Advances rt c s s' h;
}

pub IsUntouched-IsAdvance : (s s' : State) → IsUntouched s s' → Advances s s' → IsAdvance s s'
IsUntouched-IsAdvance s s' u f = record {
  coverage = IsUntouched-CoverageInv s s' u;
  settled = λ inv. rw u.claims (λ id c was done. was);
  forward = f;
}

pub IsLogged-IsAdvance : (s s' : State) → IsLogged s s' → IsAdvance s s'
IsLogged-IsAdvance s s' x =
    IsUntouched-IsAdvance s s'
      (record {
        claims = x.claims;
        vouchers = x.vouchers;
        coverage = ap (λ p. p.outstanding_coverage_ada) x.pool;
      })
      (Advances-of_same s s' x.intents)

pub IsSettledBy-IsAdvance :
    (id tx : ℕ) (direct : Bool) (c : Claim) (s s' : State)
    → IsSettledBy id tx direct c s s'
    → IsAdvance s s'
IsSettledBy-IsAdvance id tx direct c s s' x =
    let paid : IsPaid id tx direct c s s' = record {
      was = x.was;
      was_unsettled = x.was_open;
      claims_put = x.claims;
      vouchers_kept = x.vouchers;
      shrunk = x.coverage;
      nav_shrunk = x.nav;
    } in
    record {
      coverage = λ inv. IsPaid-CoverageInv id tx direct c s s' inv paid;
      settled = λ inv.
          KeepsSettled-of_put s s' id _ x.claims λ d was done. ground (arith, x.was, x.was_open);
      forward = rw x.intents (AllForward-set_status s.intents c.intent_id);
    }
