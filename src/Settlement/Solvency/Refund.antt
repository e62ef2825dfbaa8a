-- ===== src/Settlement/Solvency/Refund.antt =====
-- Requests come and go with their bonds (`discard_settlement_request`,
-- `remove_expired_settlement_request`, `store_settlement_request` of
-- pallets/intent-settlement/src/lib.rs).
use materios_intent_settleme.Common.{
  ℕ, ◌+◌, ◌-◌, ◌≤◌, ◌<◌, ◌≡◌, refl, inl, inr, false, Option, none, some, ok, arith, if◌then◌else◌,
  ◌==◌, Option-cases,
}
use materios_intent_settleme.Settlement.Evidence.{SettlementRequestRecord}
use materios_intent_settleme.Settlement.Types.{Claim}
use materios_intent_settleme.Settlement.State.{Runtime, State, Requests}
use materios_intent_settleme.Settlement.Currency.{Currency, Chain}
use materios_intent_settleme.Settlement.Bonds.{
  discard_settlement_request, remove_expired_settlement_request,
}
use materios_intent_settleme.Settlement.Solvency.{SolvencyInv, IsEntry, EntryAt, bond_of}
use materios_intent_settleme.Settlement.Solvency.Change.{
  KeepsSettlement, IsChange-SolvencyInv, bond-reserved,
}

-- The pallet's maps and the pool stay; only events are added.
pub record IsLogged (s s' : State) : Type 0 where
  pub claims : s'.claims ≡ s.claims
  pub vouchers : s'.vouchers ≡ s.vouchers
  pub intents : s'.intents ≡ s.intents
  pub pool : s'.pool ≡ s.pool
  pub block : s'.block_number ≡ s.block_number

-- The records of all claims but one stay.
abbrev pub OthersKept : ℕ → Requests → Requests → Type 0
OthersKept id r r' =
    (j : ℕ)
    → (j == id) ≡ false
    → (r'.claim_settlement_requests j ≡ r.claim_settlement_requests j)
      × (r'.bonded_claim_attested_at j ≡ r.bonded_claim_attested_at j)
      × (r'.bonded_claim_requester j ≡ r.bonded_claim_requester j)

pub KeepsSettlement-logged : (s s' : State) → IsLogged s s' → KeepsSettlement s.claims s'.claims
KeepsSettlement-logged s s' x j c = rw x.claims c

alone_entry :
    (bound : ℕ) (c : Option Claim) (q : SettlementRequestRecord) (n : Option ℕ) (h : Option (ℕ × ℕ))
    → IsEntry bound c (some q) n h
    → (n ≡ none) × (h ≡ none) × (q.bond_amount ≤ bound)
alone_entry bound c q none none e = (refl, refl, e)
alone_entry bound c q (some n) none e = absurd e
alone_entry bound c q none (some h) e = absurd e
alone_entry bound c q (some n) (some h) e = absurd e

module _ {L : Type 0} (currency : Currency L) (rt : Runtime) where
  open currency use {reserved_balance_named}

  -- The request is gone, and the reserve of its requester is down by the bond.
  pub record IsDiscarded (id who amount : ℕ) (ch ch' : Chain L) : Type 0 where
    pub logged : IsLogged ch.pallet ch'.pallet
    pub gone : ch'.requests.claim_settlement_requests id ≡ none
    pub no_block :
        ch.requests.bonded_claim_attested_at id ≡ none
        → ch'.requests.bonded_claim_attested_at id ≡ none
    pub no_held :
        ch.requests.bonded_claim_requester id ≡ none → ch'.requests.bonded_claim_requester id ≡ none
    pub others : OthersKept id ch.requests ch'.requests
    pub reserve :
        (a : ℕ)
        → reserved_balance_named a ch'.ledger
          ≡ reserved_balance_named a ch.ledger - (if a == who then amount else 0)

  pub discard-IsDiscarded :
      (id : ℕ) (q : SettlementRequestRecord) (ch ch' : Chain L)
      → discard_settlement_request currency rt id q ch ≡ ok ch'
      → IsDiscarded id q.requester q.bond_amount ch ch'
  unfolding discard_settlement_request
  discard-IsDiscarded id q ch ch' h = record {
    logged = record {
      claims = ground arith;
      vouchers = ground arith;
      intents = ground arith;
      pool = ground arith;
      block = ground arith;
    };
    gone = ground arith;
    no_block = ground arith;
    no_held = ground arith;
    others = λ j e. (ground arith, ground arith, ground arith);
    reserve =
        λ a. ground (arith, currency.unreserve_named_lem q.requester q.bond_amount ch.ledger a);
  }

  -- A pending request has no held bond beside it.
  pub pending_alone :
      (id : ℕ) (q : SettlementRequestRecord) (ch : Chain L)
      → EntryAt rt ch id
      → ch.requests.claim_settlement_requests id ≡ some q
      → (ch.requests.bonded_claim_attested_at id ≡ none)
        × (ch.requests.bonded_claim_requester id ≡ none)
        × (q.bond_amount ≤ rt.balance_max)
  pending_alone id q ch e was =
      alone_entry rt.balance_max (ch.pallet.claims id) q (ch.requests.bonded_claim_attested_at id)
        (ch.requests.bonded_claim_requester id) (rw was at e)

  pub IsDiscarded-SolvencyInv :
      (id : ℕ) (q : SettlementRequestRecord) (ch ch' : Chain L)
      → SolvencyInv currency rt ch
      → ch.requests.claim_settlement_requests id ≡ some q
      → IsDiscarded id q.requester q.bond_amount ch ch'
      → SolvencyInv currency rt ch'
  IsDiscarded-SolvencyInv id q ch ch' inv was x =
      let alone = pending_alone id q ch (inv.entries id) was in
      let no_block = x.no_block alone.0 in
      let no_held = x.no_held alone.1 in
      IsChange-SolvencyInv currency rt id ch ch' inv (record {
        others = x.others;
        kept = KeepsSettlement-logged ch.pallet ch'.pallet x.logged;
        entry = rw (x.gone, no_block, no_held) tt;
        moved = λ a. ground (
          arith,
          was,
          alone.1,
          x.gone,
          no_held,
          x.reserve a,
          bond-reserved currency rt ch inv a id,
        );
      })

  -- What the removal of an expired request leaves: no request, and nothing else changed but events.
  pub record IsCleared (id : ℕ) (ch ch' : Chain L) : Type 0 where
    pub solvent : SolvencyInv currency rt ch'
    pub logged : IsLogged ch.pallet ch'.pallet
    pub gone : ch'.requests.claim_settlement_requests id ≡ none

  pub remove_expired-IsCleared :
      (id : ℕ) (ch ch' : Chain L)
      → SolvencyInv currency rt ch
      → remove_expired_settlement_request currency rt id ch ≡ ok ch'
      → IsCleared id ch ch'
  unfolding remove_expired_settlement_request
  remove_expired-IsCleared id ch ch' inv h =
      elim (Option-cases (ch.requests.claim_settlement_requests id)) [
        | inl e ↦
            let same : ch' ≡ ch = ground arith in
            rw same (record {
              solvent = inv;
              logged = record {
                claims = refl;
                vouchers = refl;
                intents = refl;
                pool = refl;
                block = refl;
              };
              gone = e;
            })
        | inr (q, e) ↦
            let x = discard-IsDiscarded id q ch ch' (ground arith) in
            record {
              solvent = IsDiscarded-SolvencyInv id q ch ch' inv e x;
              logged = x.logged;
              gone = x.gone;
            }
      ]

  -- A bond has been reserved and its request written.
  pub record IsPosted (id : ℕ) (q : SettlementRequestRecord) (ch ch' : Chain L) : Type 0 where
    pub logged : IsLogged ch.pallet ch'.pallet
    pub fits : q.bond_amount ≤ rt.balance_max
    pub positive : 0 < q.bond_amount
    pub written : ch'.requests.claim_settlement_requests id ≡ some q
    pub same_block :
        ch'.requests.bonded_claim_attested_at id ≡ ch.requests.bonded_claim_attested_at id
    pub same_held : ch'.requests.bonded_claim_requester id ≡ ch.requests.bonded_claim_requester id
    pub others : OthersKept id ch.requests ch'.requests
    pub reserve :
        (a : ℕ)
        → reserved_balance_named a ch'.ledger
          ≡ reserved_balance_named a ch.ledger + (if a == q.requester then q.bond_amount else 0)

  pub IsPosted-SolvencyInv :
      (id : ℕ) (q : SettlementRequestRecord) (ch ch' : Chain L)
      → SolvencyInv currency rt ch
      → ((a : ℕ) → bond_of ch.requests a id ≡ 0)
      → ch.requests.bonded_claim_attested_at id ≡ none
      → ch.requests.bonded_claim_requester id ≡ none
      → IsPosted id q ch ch'
      → SolvencyInv currency rt ch'
  IsPosted-SolvencyInv id q ch ch' inv nothing no_block no_held x =
      IsChange-SolvencyInv currency rt id ch ch' inv (record {
        others = x.others;
        kept = KeepsSettlement-logged ch.pallet ch'.pallet x.logged;
        entry = rw (x.written, x.same_block, x.same_held, no_block, no_held) x.fits;
        moved = λ a. ground (arith, nothing a, x.written, x.same_held, no_held, x.reserve a);
      })
