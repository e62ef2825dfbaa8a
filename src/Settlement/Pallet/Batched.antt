-- ===== src/Settlement/Pallet/Batched.antt =====
-- A batch of submissions as an advance of the pallet's storage (`submit_batch_intents` of
-- pallets/intent-settlement/src/lib.rs).
use materios_intent_settleme.Common.{ℕ, ap, ◌≡◌, inl, inr, List, [], ◌∷◌, ok, arith, Result-cases}
use materios_intent_settleme.Settlement.Types.{IntentKind}
use materios_intent_settleme.Settlement.State.{Runtime, State}
use materios_intent_settleme.Settlement.Submit.{do_submit_intent}
use materios_intent_settleme.Settlement.Batches.{submit_entries, submit_batch_intents}
use materios_intent_settleme.Settlement.System.Untouched.{do_submit_intent-IsUntouched}
use materios_intent_settleme.Settlement.System.Advances.{
  Advances-of_same, do_submit_intent-Advances,
}
use materios_intent_settleme.Settlement.Pallet.Advance.{
  IsAdvance, IsAdvance-refl, IsAdvance-trans, IsUntouched-IsAdvance,
}

submit_entries-IsAdvance :
    (rt : Runtime) (who : ℕ) (entries : List IntentKind) (s s' : State)
    → submit_entries rt who entries s ≡ ok s'
    → IsAdvance s s'
unfolding submit_entries
submit_entries-IsAdvance rt who [] s s' h =
    let same : s' ≡ s = ground arith in rw same (IsAdvance-refl s)
submit_entries-IsAdvance rt who (kind ∷ rest) s s' h =
    elim (Result-cases (do_submit_intent rt who kind s)) [
      | inl (x, failed) ↦ ground arith
      | inr ((id, t), done) ↦
          IsAdvance-trans s t s'
            (IsUntouched-IsAdvance s t (do_submit_intent-IsUntouched rt who kind s id t done)
              (do_submit_intent-Advances rt who kind s id t done))
            (submit_entries-IsAdvance rt who rest t s' (ground arith))
    ]

-- The events do not matter to an advance.
pub IsAdvance-same :
    (s t u : State)
    → IsAdvance s t
    → u.claims ≡ t.claims
    → u.vouchers ≡ t.vouchers
    → u.pool ≡ t.pool
    → u.intents ≡ t.intents
    → IsAdvance s u
IsAdvance-same s t u x c v p i = IsAdvance-trans s t u x (
    IsUntouched-IsAdvance t u
      (record { claims = c; vouchers = v; coverage = ap (λ q. q.outstanding_coverage_ada) p })
      (Advances-of_same t u i))

pub submit_batch_intents-IsAdvance :
    (rt : Runtime) (who : ℕ) (entries : List IntentKind) (s s' : State)
    → submit_batch_intents rt who entries s ≡ ok s'
    → IsAdvance s s'
unfolding submit_batch_intents
submit_batch_intents-IsAdvance rt who entries s s' h =
    elim (Result-cases (submit_entries rt who entries s)) [
      | inl (x, failed) ↦ ground arith
      | inr (t, done) ↦
          IsAdvance-same s t s' (submit_entries-IsAdvance rt who entries s t done) (ground arith)
            (ground arith) (ground arith) (ground arith)
    ]
