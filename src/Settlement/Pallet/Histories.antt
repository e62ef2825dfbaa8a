-- ===== src/Settlement/Pallet/Histories.antt =====
-- The invariants over any history of the whole pallet (pallets/intent-settlement/src/lib.rs).
use materios_intent_settleme.Common.{◌≡◌, false, List, [], ◌∷◌, some, All, ℕ}
use materios_intent_settleme.Settlement.Types.{Intent}
use materios_intent_settleme.Settlement.State.{Runtime}
use materios_intent_settleme.Settlement.Currency.{Currency, Chain}
use materios_intent_settleme.Settlement.System.Forward.{Follows}
use materios_intent_settleme.Settlement.System.Progress.{Forward-some}
use materios_intent_settleme.Settlement.System.Finality.{KeepsSettled}
use materios_intent_settleme.Settlement.Pallet.{PalletCall, step_call, run_calls, step_call-keeps}
use materios_intent_settleme.Settlement.Pallet.Advance.{IsAdvance-refl, IsAdvance-trans}
use materios_intent_settleme.Settlement.Pallet.Kept.{
  sets_pool, PalletInv, IsKept, dispatch_call-IsKept,
}

module _ {L : Type 0} (currency : Currency L) (rt : Runtime) where
  kept-PalletInv :
      (ch ch' : Chain L)
      → PalletInv currency rt ch
      → IsKept currency rt ch ch'
      → PalletInv currency rt ch'
  kept-PalletInv ch ch' inv x = record {
    coverage = x.advance.coverage inv.coverage;
    solvent = x.solvent;
  }

  step_call-IsKept :
      (c : PalletCall) (ch : Chain L)
      → sets_pool c ≡ false
      → PalletInv currency rt ch
      → IsKept currency rt ch (step_call currency rt c ch)
  step_call-IsKept c ch l inv =
      step_call-keeps currency rt (IsKept currency rt ch) c ch
        (λ ch' h. dispatch_call-IsKept currency rt c ch ch' l inv h)
        (record { advance = IsAdvance-refl ch.pallet; solvent = inv.solvent })

  run_calls-IsKept :
      (cs : List PalletCall) (ch : Chain L)
      → All (λ c. sets_pool c ≡ false) cs
      → PalletInv currency rt ch
      → IsKept currency rt ch (run_calls currency rt cs ch)
  unfolding run_calls
  run_calls-IsKept [] ch l inv = record {
    advance = IsAdvance-refl ch.pallet;
    solvent = inv.solvent;
  }
  run_calls-IsKept (c ∷ cs) ch l inv =
      let first = step_call-IsKept c ch l.0 inv in
      let next = step_call currency rt c ch in
      let rest = run_calls-IsKept cs next l.1 (kept-PalletInv ch next inv first) in
      record {
        advance =
            IsAdvance-trans ch.pallet next.pallet (run_calls currency rt cs next).pallet
              first.advance rest.advance;
        solvent = rest.solvent;
      }

  -- Over any history of the pallet's calls and blocks in which the root does not set the pool, two
  -- invariants are kept. The coverage counter is the sum of what the open claims owe. And for every
  -- account, what the pallet's reserve holds is the sum of the bonds of its pending requests and of
  -- its attested claims whose bond is not released, a held bond belongs to a settled claim, and no
  -- claim has a held bond beside a pending request.
  pub run_calls-PalletInv :
      (cs : List PalletCall) (ch : Chain L)
      → All (λ c. sets_pool c ≡ false) cs
      → PalletInv currency rt ch
      → PalletInv currency rt (run_calls currency rt cs ch)
  run_calls-PalletInv cs ch l inv =
      kept-PalletInv ch (run_calls currency rt cs ch) inv (run_calls-IsKept cs ch l inv)

  -- Over any history of the pallet's calls and blocks in which the root does not set the pool, from
  -- a state where the two invariants of coverage and bonds hold, a claim that is settled stays
  -- exactly as it was settled, with its transaction and its flag. Legacy calls, attested ones and
  -- batches are all among the calls.
  pub run_calls-KeepsSettled :
      (cs : List PalletCall) (ch : Chain L)
      → All (λ c. sets_pool c ≡ false) cs
      → PalletInv currency rt ch
      → KeepsSettled ch.pallet (run_calls currency rt cs ch).pallet
  run_calls-KeepsSettled cs ch l inv = (run_calls-IsKept cs ch l inv).advance.settled inv.coverage

  -- Over any history of the pallet's calls and blocks in which the root does not set the pool, from
  -- a state where the two invariants of coverage and bonds hold, an intent that was submitted stays
  -- in the storage with its submitter, nonce, kind and blocks, and its status never falls back in
  -- the order pending, attested, vouchered, refunded, expired, settled.
  pub run_calls_keeps_intent :
      (cs : List PalletCall) (ch : Chain L) (id : ℕ) (i : Intent)
      → All (λ c. sets_pool c ≡ false) cs
      → PalletInv currency rt ch
      → ch.pallet.intents id ≡ some i
      → (i' : Intent) × ((run_calls currency rt cs ch).pallet.intents id ≡ some i') × Follows i i'
  run_calls_keeps_intent cs ch id i l inv e =
      Forward-some i ((run_calls currency rt cs ch).pallet.intents id)
        (rw e at ((run_calls-IsKept cs ch l inv).advance.forward id))
