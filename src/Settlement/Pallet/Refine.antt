-- ===== src/Settlement/Pallet/Refine.antt =====
-- A batch of submissions refines the single calls (`submit_batch_intents` and `submit_intent` of
-- pallets/intent-settlement/src/lib.rs).
use materios_intent_settleme.Common.{
  ℕ, ◌+◌, ◌≤◌, ◌≡◌, ◌↔◌, ◌≢◌, refl, inl, inr, List, [], ◌∷◌, ok, length, arith, Bool-cases, leb,
  u64_max, Result-cases,
}
use materios_intent_settleme.Settlement.Types.{IntentKind, Event}
use materios_intent_settleme.Settlement.State.{Runtime, State, deposit_event}
use materios_intent_settleme.Settlement.Payloads.Batched.{submit_batch_intents_payload}
use materios_intent_settleme.Settlement.Submit.{do_submit_intent, submit_intent}
use materios_intent_settleme.Settlement.Batches.{
  total_premium, submit_entries, submit_batch_intents,
}
use materios_intent_settleme.Settlement.System.{Call, dispatch}

-- The premiums of the policies among the entries.
abbrev pub premiums : List IntentKind → ℕ
premiums [] = 0
premiums (IntentKind.buy_policy _ _ _ premium_ada _ ∷ rest) = premium_ada + premiums rest
premiums (_ ∷ rest) = premiums rest

total_premium_sound :
    (acc : ℕ) (entries : List IntentKind) (t : ℕ)
    → acc ≤ u64_max
    → total_premium acc entries ≡ ok t
    → (acc + premiums entries ≤ u64_max) × (t ≡ acc + premiums entries)
unfolding total_premium
total_premium_sound acc [] t fits h = (omega (arith, fits), ground arith)
total_premium_sound acc (IntentKind.buy_policy _ _ _ p _ ∷ rest) t fits h =
    elim (Bool-cases (leb (acc + p) u64_max)) [
      | inl small ↦
          let ih = total_premium_sound (acc + p) rest t (ground arith) (ground arith) in
          (omega (arith, ih.0), omega (arith, ih.1))
      | inr big ↦ absurd (ground arith)
    ]
total_premium_sound acc (IntentKind.request_payout _ _ ∷ rest) t fits h =
    total_premium_sound acc rest t fits h
total_premium_sound acc (IntentKind.refund_credit _ ∷ rest) t fits h =
    total_premium_sound acc rest t fits h
total_premium_sound acc (IntentKind.perp_action _ ∷ rest) t fits h =
    total_premium_sound acc rest t fits h

total_premium_complete :
    (acc : ℕ) (entries : List IntentKind)
    → acc + premiums entries ≤ u64_max
    → total_premium acc entries ≡ ok (acc + premiums entries)
unfolding total_premium
total_premium_complete acc [] h = ground arith
total_premium_complete acc (IntentKind.buy_policy _ _ _ p _ ∷ rest) h =
    let ih = total_premium_complete (acc + p) rest (omega (arith, h)) in
    let same : acc + p + premiums rest ≡ acc + (p + premiums rest) = omega arith in
    ground (arith, ih, same)
total_premium_complete acc (IntentKind.request_payout _ _ ∷ rest) h =
    total_premium_complete acc rest h
total_premium_complete acc (IntentKind.refund_credit _ ∷ rest) h = total_premium_complete acc rest h
total_premium_complete acc (IntentKind.perp_action _ ∷ rest) h = total_premium_complete acc rest h

-- The single calls that a batch stands for.
abbrev pub submissions : ℕ → List IntentKind → List Call
submissions who [] = []
submissions who (kind ∷ rest) = Call.submits who kind ∷ submissions who rest

-- Every call of the list succeeds, each in the state that the ones before it left.
abbrev pub AllSucceed : Runtime → List Call → State → State → Type 0
AllSucceed rt [] s s' = s' ≡ s
AllSucceed rt (c ∷ cs) s s' = (t : State) × (dispatch rt c s ≡ ok t) × AllSucceed rt cs t s'

submit_entries_sound :
    (rt : Runtime) (who : ℕ) (entries : List IntentKind) (s s' : State)
    → submit_entries rt who entries s ≡ ok s'
    → AllSucceed rt (submissions who entries) s s'
unfolding submit_entries dispatch submit_intent
submit_entries_sound rt who [] s s' h = ground arith
submit_entries_sound rt who (kind ∷ rest) s s' h =
    elim (Result-cases (do_submit_intent rt who kind s)) [
      | inl (x, failed) ↦ absurd (ground arith)
      | inr ((id, t), done) ↦
          (t, ground arith, submit_entries_sound rt who rest t s' (ground arith))
    ]

submit_entries_complete :
    (rt : Runtime) (who : ℕ) (entries : List IntentKind) (s s' : State)
    → AllSucceed rt (submissions who entries) s s'
    → submit_entries rt who entries s ≡ ok s'
unfolding submit_entries dispatch submit_intent
submit_entries_complete rt who [] s s' h = ground arith
submit_entries_complete rt who (kind ∷ rest) s s' (t, one, more) =
    elim (Result-cases (do_submit_intent rt who kind s)) [
      | inl (x, failed) ↦ absurd (ground arith)
      | inr ((id, u), done) ↦
          let same : u ≡ t = ground arith in
          let ih = submit_entries_complete rt who rest t s' more in rw done (rw same ih)
    ]

-- What a batch that goes through comes to.
abbrev pub IsSubmittedBatch : Runtime → ℕ → List IntentKind → State → State → Type 0
IsSubmittedBatch rt who entries s s' =
    (entries ≢ [])
    × (premiums entries ≤ u64_max)
    × ((t : State) × AllSucceed rt (submissions who entries) s t
        × (s'
            ≡ deposit_event
                (Event.batch_intents_submitted who (length entries)
                  (submit_batch_intents_payload rt rt.chain_id entries) (premiums entries))
                t))

submit_batch_sound :
    (rt : Runtime) (who : ℕ) (entries : List IntentKind) (s s' : State)
    → submit_batch_intents rt who entries s ≡ ok s'
    → IsSubmittedBatch rt who entries s s'
unfolding submit_batch_intents
submit_batch_sound rt who [] s s' h = absurd (ground arith)
submit_batch_sound rt who (kind ∷ rest) s s' h =
    let entries = kind ∷ rest in
    elim (Result-cases (submit_entries rt who entries s)) [
      | inl (x, failed) ↦ absurd (ground arith)
      | inr (t, done) ↦ elim (Result-cases (total_premium 0 entries)) [
        | inl (x, failed) ↦ absurd (ground arith)
        | inr (n, summed) ↦
            let fits = total_premium_sound 0 entries n (omega arith) summed in
            (
              λ e. cc,
              ground (arith, fits.0),
              (t, submit_entries_sound rt who entries s t done, ground (arith, fits.1)),
            )
      ]
    ]

submit_batch_complete :
    (rt : Runtime) (who : ℕ) (entries : List IntentKind) (s s' : State)
    → IsSubmittedBatch rt who entries s s'
    → submit_batch_intents rt who entries s ≡ ok s'
unfolding submit_batch_intents
submit_batch_complete rt who [] s s' h = absurd (h.0 refl)
submit_batch_complete rt who (kind ∷ rest) s s' h =
    let entries = kind ∷ rest in
    let summed = total_premium_complete 0 entries (ground (arith, h.1)) in
    let done = submit_entries_complete rt who entries s h.2.0 h.2.1 in
    ground (arith, summed, done, h.2.2)

-- A batch goes through exactly when it is not empty, its premiums sum to at most 2^64 - 1, and each
-- of its entries, submitted by a call of its own after the ones before it, goes through. The state
-- is then the one that those calls leave, but for the event of the batch, which tells that sum. So
-- a batch is all of its submissions or none.
pub submit_batch_intents_iff :
    (rt : Runtime) (who : ℕ) (entries : List IntentKind) (s s' : State)
    → (submit_batch_intents rt who entries s ≡ ok s') ↔ IsSubmittedBatch rt who entries s s'
submit_batch_intents_iff rt who entries s s' =
    (submit_batch_sound rt who entries s s', submit_batch_complete rt who entries s s')
