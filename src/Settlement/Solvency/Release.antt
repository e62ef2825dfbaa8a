-- ===== src/Settlement/Solvency/Release.antt =====
-- A release gives exactly the bond back (`release_settlement_bond` of
-- pallets/intent-settlement/src/lib.rs).

use materios_intent_settleme.Common.{
  ℕ, ◌-◌, ◌≤◌, ◌≡◌, refl, inl, inr, ◌∷◌, Option, none, some, ok, put, arith, if◌then◌else◌, ◌==◌,
  Option-cases, ◌+◌, ◌<◌, true,
}
use materios_intent_settleme.Settlement.Evidence.{SettlementRequestRecord}
use materios_intent_settleme.Settlement.Types.{Claim, Event}
use materios_intent_settleme.Settlement.State.{Runtime}
use materios_intent_settleme.Settlement.Currency.{Currency, Chain}
use materios_intent_settleme.Settlement.Bonds.{
  put_request, refunded, refund_settlement_bond, request_expired, discard_settlement_request,
}
use materios_intent_settleme.Settlement.Slash.{release_settlement_bond}
use materios_intent_settleme.Settlement.Solvency.{SolvencyInv, IsEntry, EntryAt, bond_of}
use materios_intent_settleme.Settlement.Solvency.Change.{IsChange-SolvencyInv, bond-reserved}
use materios_intent_settleme.Settlement.Solvency.Refund.{
  IsLogged, remove_expired-IsCleared, KeepsSettlement-logged, pending_alone, discard-IsDiscarded,
}

held_entry :
    (bound : ℕ) (c : Option Claim) (q : Option SettlementRequestRecord) (n : ℕ) (o : Option (ℕ × ℕ))
    → IsEntry bound c q (some n) o
    → (h : ℕ × ℕ) × (o ≡ some h) × (q ≡ none) × (h.1 ≤ bound)
held_entry bound c none n (some h) e = (h, refl, refl, e.0)
held_entry bound c none n none e = absurd e
held_entry bound c (some q) n none e = absurd e
held_entry bound c (some q) n (some h) e = absurd e

module _ {L : Type 0} (currency : Currency L) (rt : Runtime) where
  open currency use {reserved_balance_named}

  -- A held bond goes back whole: its records are gone, and no deficit is told.
  pub record IsReleased (id who amount : ℕ) (ch ch' : Chain L) : Type 0 where
    pub same_requests :
        ch'.requests.claim_settlement_requests ≡ ch.requests.claim_settlement_requests
    pub no_block :
        ch'.requests.bonded_claim_attested_at ≡ put ch.requests.bonded_claim_attested_at id none
    pub no_held :
        ch'.requests.bonded_claim_requester ≡ put ch.requests.bonded_claim_requester id none
    pub logged : IsLogged ch.pallet ch'.pallet
    pub told : ch'.pallet.events ≡ Event.settlement_bond_released id who amount ∷ ch.pallet.events
    pub reserve :
        (a : ℕ)
        → reserved_balance_named a ch'.ledger
          ≡ reserved_balance_named a ch.ledger - (if a == who then amount else 0)

  refund-IsReleased :
      (id who amount : ℕ) (ch ch' : Chain L)
      → amount ≤ reserved_balance_named who ch.ledger
      → refund_settlement_bond currency rt id who amount ch ≡ ok ch'
      → IsReleased id who amount ch ch'
  unfolding refund_settlement_bond
  refund-IsReleased id who amount ch ch' covered h =
      let missing : (currency.unreserve_named who amount ch.ledger).0 ≡ 0 =
        omega (arith, currency.unreserve_named_missing who amount ch.ledger, covered) in
      record {
        same_requests = ground (arith, missing);
        no_block = ground (arith, missing);
        no_held = ground (arith, missing);
        logged = record {
          claims = ground (arith, missing);
          vouchers = ground (arith, missing);
          intents = ground (arith, missing);
          pool = ground (arith, missing);
          block = ground (arith, missing);
        };
        told = ground (arith, missing);
        reserve = λ a. ground (arith, missing, currency.unreserve_named_lem who amount ch.ledger a);
      }

  -- A held bond stands alone, of a settled claim.
  held_alone :
      (id : ℕ) (ch : Chain L) (n : ℕ)
      → SolvencyInv currency rt ch
      → ch.requests.bonded_claim_attested_at id ≡ some n
      → (h : ℕ × ℕ) × (ch.requests.bonded_claim_requester id ≡ some h)
        × (ch.requests.claim_settlement_requests id ≡ none)
        × (h.1 ≤ rt.balance_max)
  held_alone id ch n inv e =
      let entry : EntryAt rt ch id = inv.entries id in
      held_entry rt.balance_max (ch.pallet.claims id) (ch.requests.claim_settlement_requests id) n
        (ch.requests.bonded_claim_requester id) (rw e at entry)

  pub release_held-IsReleased :
      (id : ℕ) (ch ch' : Chain L) (n : ℕ)
      → SolvencyInv currency rt ch
      → ch.requests.bonded_claim_attested_at id ≡ some n
      → release_settlement_bond currency rt id ch ≡ ok ch'
      → (h : ℕ × ℕ) × (ch.requests.bonded_claim_requester id ≡ some h)
        × IsReleased id h.0 h.1 ch ch'
  unfolding release_settlement_bond
  release_held-IsReleased id ch ch' n inv e h =
      let x = held_alone id ch n inv e in
      let covered : x.0.1 ≤ reserved_balance_named x.0.0 ch.ledger =
        ground (arith, bond-reserved currency rt ch inv x.0.0 id, x.1) in
      (x.0, x.1, refund-IsReleased id x.0.0 x.0.1 ch ch' covered (ground (arith, x.1)))

  IsReleased-SolvencyInv :
      (id n : ℕ) (h : ℕ × ℕ) (ch ch' : Chain L)
      → SolvencyInv currency rt ch
      → ch.requests.bonded_claim_attested_at id ≡ some n
      → ch.requests.bonded_claim_requester id ≡ some h
      → IsReleased id h.0 h.1 ch ch'
      → SolvencyInv currency rt ch'
  IsReleased-SolvencyInv id n h ch ch' inv e held x =
      let y = held_alone id ch n inv e in
      IsChange-SolvencyInv currency rt id ch ch' inv (record {
        others = λ j other.
            rw (x.same_requests, x.no_block, x.no_held) (refl, ground arith, ground arith);
        kept = KeepsSettlement-logged ch.pallet ch'.pallet x.logged;
        entry = rw (x.same_requests, x.no_block, x.no_held) (rw y.2 (ground arith));
        moved = λ a.
            rw (x.same_requests, x.no_held)
              (ground (arith, held, y.2, x.reserve a, bond-reserved currency rt ch inv a id));
      })

  pub release-SolvencyInv :
      (id : ℕ) (ch ch' : Chain L)
      → SolvencyInv currency rt ch
      → release_settlement_bond currency rt id ch ≡ ok ch'
      → SolvencyInv currency rt ch' × IsLogged ch.pallet ch'.pallet
  unfolding release_settlement_bond
  release-SolvencyInv id ch ch' inv h =
      elim (Option-cases (ch.requests.bonded_claim_attested_at id)) [
        | inl e ↦
            let x = remove_expired-IsCleared currency rt id ch ch' inv (ground arith) in
            (x.solvent, x.logged)
        | inr (n, e) ↦
            let x = release_held-IsReleased id ch ch' n inv e h in
            (IsReleased-SolvencyInv id n x.0 ch ch' inv e x.1 x.2, x.2.logged)
      ]

  -- A held bond past its delay, or a bonded request past its time to live.
  pub data IsDueBond (id : ℕ) (ch : Chain L) : Type 0 where
    held :
        (n : ℕ)
        → ch.requests.bonded_claim_attested_at id ≡ some n
        → rt.bond_release_delay_blocks ≤ ch.pallet.block_number - n
        → IsDueBond id ch
    expired :
        (q : SettlementRequestRecord)
        → ch.requests.claim_settlement_requests id ≡ some q
        → 0 < q.bond_amount
        → request_expired rt ch.pallet q.submitted_block ≡ true
        → IsDueBond id ch

  release_held :
      (id n : ℕ) (ch : Chain L)
      → SolvencyInv currency rt ch
      → ch.requests.bonded_claim_attested_at id ≡ some n
      → rt.bond_release_delay_blocks ≤ ch.pallet.block_number - n
      → (ch' : Chain L) × (release_settlement_bond currency rt id ch ≡ ok ch')
  unfolding release_settlement_bond
  release_held id n ch inv e due =
      let x = held_alone id ch n inv e in
      let moved = currency.unreserve_named x.0.0 x.0.1 ch.ledger in
      (refunded currency rt id x.0.0 x.0.1 moved ch, ground (arith, x.1, x.3))

  release_expired :
      (id : ℕ) (q : SettlementRequestRecord) (ch : Chain L)
      → SolvencyInv currency rt ch
      → ch.requests.claim_settlement_requests id ≡ some q
      → 0 < q.bond_amount
      → request_expired rt ch.pallet q.submitted_block ≡ true
      → (ch' : Chain L) × (release_settlement_bond currency rt id ch ≡ ok ch')
        × (discard_settlement_request currency rt id q ch ≡ ok ch')
  unfolding release_settlement_bond
  release_expired id q ch inv e bonded over =
      let alone = pending_alone currency rt id q ch (inv.entries id) e in
      let moved = currency.unreserve_named q.requester q.bond_amount ch.ledger in
      (
        put_request id none (refunded currency rt id q.requester q.bond_amount moved ch),
        ground (arith, alone.0, alone.2),
        ground (arith, alone.2),
      )

  -- Nothing is reserved for the claim any more, and each account has back what was.
  abbrev pub IsGivenBack : ℕ → Chain L → Chain L → Type 0
  IsGivenBack id ch ch' =
      (a : ℕ)
      → (bond_of ch'.requests a id ≡ 0)
        × (reserved_balance_named a ch'.ledger + bond_of ch.requests a id
            ≡ reserved_balance_named a ch.ledger)

  IsReleased-IsGivenBack :
      (id n : ℕ) (ch ch' : Chain L)
      → SolvencyInv currency rt ch
      → ch.requests.bonded_claim_attested_at id ≡ some n
      → release_settlement_bond currency rt id ch ≡ ok ch'
      → IsGivenBack id ch ch'
  IsReleased-IsGivenBack id n ch ch' inv e h a =
      let y = held_alone id ch n inv e in
      let x = release_held-IsReleased id ch ch' n inv e h in
      (
        rw (x.2.same_requests, x.2.no_held) (rw y.2 (ground arith)),
        ground (arith, y.2, x.1, x.2.reserve a, bond-reserved currency rt ch inv a id),
      )

  -- Where the bonds are backed, every bond can be taken back. Of a held bond whose delay has
  -- passed, and of the bond of a request whose time to live has passed, the release succeeds,
  -- whoever calls it. Then nothing is reserved for the claim, and each account's reserve has gone
  -- down by exactly its bond for it.
  pub release_settlement_bond_live :
      (id : ℕ) (ch : Chain L)
      → SolvencyInv currency rt ch
      → IsDueBond id ch
      → (ch' : Chain L) × (release_settlement_bond currency rt id ch ≡ ok ch')
        × IsGivenBack id ch ch'
  release_settlement_bond_live id ch inv (held n e due) =
      let x = release_held id n ch inv e due in
      (x.0, x.1, IsReleased-IsGivenBack id n ch x.0 inv e x.1)
  release_settlement_bond_live id ch inv (expired q e bonded over) =
      let x = release_expired id q ch inv e bonded over in
      let d = discard-IsDiscarded currency rt id q ch x.0 x.2 in
      let alone = pending_alone currency rt id q ch (inv.entries id) e in
      (
        x.0,
        x.1,
        λ a. (
          rw (d.gone, d.no_held alone.1) refl,
          ground (arith, e, alone.1, d.reserve a, bond-reserved currency rt ch inv a id),
        ),
      )
