-- ===== src/Settlement/Solvency.antt =====
-- The bonds against the currency's reserve: what the pallet's reserve holds of an account
-- (`SETTLEMENT_BOND_RESERVE_ID` of pallets/intent-settlement/src/lib.rs) is the sum of the bonds of
-- its pending requests and of its attested claims whose bond is not released.
use materios_intent_settleme.Common.{
  ℕ, ◌+◌, ◌≤◌, ◌≡◌, inl, inr, Bool, true, false, List, [], ◌∷◌, Option, none, some, contains,
  Distinct, arith, if◌then◌else◌, ◌==◌, Bool-cases, ==_iff,
}
use materios_intent_settleme.Settlement.Evidence.{SettlementRequestRecord}
use materios_intent_settleme.Settlement.Types.{Claim}
use materios_intent_settleme.Settlement.State.{Runtime, Requests}
use materios_intent_settleme.Settlement.Currency.{Currency, Chain}
pub mod Change
pub mod Refund
pub mod Post
pub mod Attest
pub mod Slash
pub mod Release
pub mod Batch
pub mod Slashed

abbrev pub pending_bond : ℕ → Option SettlementRequestRecord → ℕ
pending_bond a none = 0
pending_bond a (some q) = if a == q.requester then q.bond_amount else 0

abbrev pub held_bond : ℕ → Option (ℕ × ℕ) → ℕ
held_bond a none = 0
held_bond a (some (w, n)) = if a == w then n else 0

-- What an account has reserved for a claim.
abbrev pub bond_of : Requests → ℕ → ℕ → ℕ
bond_of r a id =
    pending_bond a (r.claim_settlement_requests id) + held_bond a (r.bonded_claim_requester id)

abbrev pub total_bonds : (ℕ → ℕ) → List ℕ → ℕ
total_bonds f [] = 0
total_bonds f (id ∷ ids) = f id + total_bonds f ids

abbrev pub IsSettledClaim : Option Claim → Type 0
IsSettledClaim none = ⊥
IsSettledClaim (some c) = c.is_settled ≡ true

-- The records of one claim: none, a pending request, or a held bond with its block, the latter only
-- of a settled claim. Each bond is an amount of the currency.
abbrev pub IsEntry :
    ℕ → Option Claim → Option SettlementRequestRecord → Option ℕ → Option (ℕ × ℕ) → Type 0
IsEntry bound c none none none = Unit
IsEntry bound c (some q) none none = q.bond_amount ≤ bound
IsEntry bound c none (some n) (some h) = (h.1 ≤ bound) × IsSettledClaim c
IsEntry bound c _ _ _ = ⊥

abbrev pub EntryAt : {L : Type 0} → Runtime → Chain L → ℕ → Type 0
EntryAt rt ch id =
    IsEntry rt.balance_max (ch.pallet.claims id) (ch.requests.claim_settlement_requests id)
      (ch.requests.bonded_claim_attested_at id) (ch.requests.bonded_claim_requester id)

pub record SolvencyInv {L : Type 0} (currency : Currency L) (rt : Runtime) (ch : Chain L)
    : Type 0 where
  pub ids : List ℕ
  pub distinct : Distinct ids
  pub complete :
      (id : ℕ)
      → contains ids id ≡ false
      → (ch.requests.claim_settlement_requests id ≡ none)
        × (ch.requests.bonded_claim_requester id ≡ none)
  pub backed :
      (a : ℕ)
      → currency.reserved_balance_named a ch.ledger ≡ total_bonds (bond_of ch.requests a) ids
  pub entries : (id : ℕ) → EntryAt rt ch id

pub total_bonds-off :
    (f g : ℕ → ℕ) (id : ℕ) (ids : List ℕ)
    → contains ids id ≡ false
    → ((j : ℕ) → (j == id) ≡ false → g j ≡ f j)
    → total_bonds g ids ≡ total_bonds f ids
total_bonds-off f g id [] h same = cc
total_bonds-off f g id (j ∷ ids) h same = ground (arith, same j, total_bonds-off f g id ids)

pub total_bonds-at :
    (f g : ℕ → ℕ) (id : ℕ) (ids : List ℕ)
    → Distinct ids
    → contains ids id ≡ true
    → ((j : ℕ) → (j == id) ≡ false → g j ≡ f j)
    → total_bonds g ids + f id ≡ total_bonds f ids + g id
total_bonds-at f g id [] d h same = cc
total_bonds-at f g id (j ∷ ids) d h same =
    ground (arith, same j, total_bonds-at f g id ids d.1, total_bonds-off f g id ids)

pub bond-le :
    (f : ℕ → ℕ) (id : ℕ) (ids : List ℕ) → contains ids id ≡ true → f id ≤ total_bonds f ids
bond-le f id [] h = cc
bond-le f id (j ∷ ids) h = ground (arith, bond-le f id ids)
