-- ===== src/Settlement/Currency.antt =====
-- The chain's currency, as the pallet uses it: `NamedReservableCurrency` of frame_support at the
-- pallet's own reserve (`SETTLEMENT_BOND_RESERVE_ID`), with the laws that its documentation states.
-- `Chain` is the pallet's storage together with the currency's.
use materios_intent_settleme.Common.{ℕ, ◌+◌, ◌-◌, ◌≡◌, ◌==◌, Option, some, if◌then◌else◌}
use materios_intent_settleme.Settlement.Types.{Event}
use materios_intent_settleme.Settlement.State.{State, Requests, deposit_event}

pub record Currency (L : Type 0) : Type 0 where
  -- what the pallet's reserve holds of an account
  pub reserved_balance_named : ℕ → L → ℕ
  -- what an account can spend
  pub free_balance : ℕ → L → ℕ
  pub reserve_named : ℕ → ℕ → L → Option L
  -- what could not be unreserved, and the ledger
  pub unreserve_named : ℕ → ℕ → L → ℕ × L
  -- from, to, amount: what could not be moved, and the ledger
  pub repatriate_reserved_named : ℕ → ℕ → ℕ → L → Option (ℕ × L)
  pub reserve_named_lem :
      (who amount : ℕ) (l l' : L)
      → reserve_named who amount l ≡ some l'
      → (a : ℕ)
      → reserved_balance_named a l' ≡ reserved_balance_named a l + (if a == who then amount else 0)
  pub unreserve_named_missing :
      (who amount : ℕ) (l : L)
      → (unreserve_named who amount l).0 ≡ amount - reserved_balance_named who l
  pub unreserve_named_lem :
      (who amount : ℕ) (l : L) (a : ℕ)
      → reserved_balance_named a (unreserve_named who amount l).1
        ≡ reserved_balance_named a l - (if a == who then amount else 0)
  pub repatriate_reserved_named_unpaid :
      (from to amount : ℕ) (l : L) (r : ℕ × L)
      → repatriate_reserved_named from to amount l ≡ some r
      → r.0 ≡ amount - reserved_balance_named from l
  pub repatriate_reserved_named_lem :
      (from to amount : ℕ) (l : L) (r : ℕ × L)
      → repatriate_reserved_named from to amount l ≡ some r
      → (a : ℕ)
      → reserved_balance_named a r.1
        ≡ reserved_balance_named a l - (if a == from then amount else 0)
  pub repatriate_reserved_named_paid :
      (from to amount : ℕ) (l : L) (r : ℕ × L)
      → repatriate_reserved_named from to amount l ≡ some r
      → (a : ℕ) → free_balance a r.1 ≡ free_balance a l + (if a == to then amount - r.0 else 0)

pub record Chain (L : Type 0) : Type 0 where
  pub pallet : State
  pub requests : Requests
  pub ledger : L

abbrev pub emit : {L : Type 0} → Event → Chain L → Chain L
emit event ch = record ch { pallet = deposit_event event ch.pallet }
