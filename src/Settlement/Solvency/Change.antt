-- ===== src/Settlement/Solvency/Change.antt =====
-- A call that touches the records of one claim keeps the bonds backed, if the reserve moves as they
-- do.
use materios_intent_settleme.Common.{
  ℕ, ◌+◌, ◌≤◌, ◌≡◌, refl, inl, inr, false, ◌∷◌, Option, none, some, contains, arith, ◌==◌,
  Bool-cases, ==_iff, sym, subst,
}
use materios_intent_settleme.Settlement.Evidence.{SettlementRequestRecord}
use materios_intent_settleme.Settlement.Types.{Claim}
use materios_intent_settleme.Settlement.State.{Runtime}
use materios_intent_settleme.Settlement.Currency.{Currency, Chain}
use materios_intent_settleme.Settlement.Solvency.{
  SolvencyInv, IsEntry, EntryAt, IsSettledClaim, bond_of, total_bonds-off, total_bonds-at, bond-le,
}

abbrev pub KeepsSettlement : (ℕ → Option Claim) → (ℕ → Option Claim) → Type 0
KeepsSettlement m m' = (id : ℕ) → IsSettledClaim (m id) → IsSettledClaim (m' id)

pub IsEntry-keep :
    (bound : ℕ) (c c' : Option Claim) (q : Option SettlementRequestRecord) (n : Option ℕ)
    (h : Option (ℕ × ℕ))
    → (IsSettledClaim c → IsSettledClaim c')
    → IsEntry bound c q n h
    → IsEntry bound c' q n h
IsEntry-keep bound c c' none none none keep e = tt
IsEntry-keep bound c c' (some q) none none keep e = e
IsEntry-keep bound c c' none (some n) (some h) keep e = (e.0, keep e.1)
IsEntry-keep bound c c' none none (some h) keep e = absurd e
IsEntry-keep bound c c' none (some n) none keep e = absurd e
IsEntry-keep bound c c' (some q) none (some h) keep e = absurd e
IsEntry-keep bound c c' (some q) (some n) none keep e = absurd e
IsEntry-keep bound c c' (some q) (some n) (some h) keep e = absurd e

module _ {L : Type 0} (currency : Currency L) (rt : Runtime) where
  open currency use {reserved_balance_named}

  pub record IsChange (id : ℕ) (ch ch' : Chain L) : Type 0 where
    pub others :
        (j : ℕ)
        → (j == id) ≡ false
        → (ch'.requests.claim_settlement_requests j ≡ ch.requests.claim_settlement_requests j)
          × (ch'.requests.bonded_claim_attested_at j ≡ ch.requests.bonded_claim_attested_at j)
          × (ch'.requests.bonded_claim_requester j ≡ ch.requests.bonded_claim_requester j)
    pub kept : KeepsSettlement ch.pallet.claims ch'.pallet.claims
    pub entry : EntryAt rt ch' id
    pub moved :
        (a : ℕ)
        → reserved_balance_named a ch'.ledger + bond_of ch.requests a id
          ≡ reserved_balance_named a ch.ledger + bond_of ch'.requests a id

  bond_of-others :
      (id : ℕ) (ch ch' : Chain L) (a j : ℕ)
      → IsChange id ch ch'
      → (j == id) ≡ false
      → bond_of ch'.requests a j ≡ bond_of ch.requests a j
  bond_of-others id ch ch' a j x e = let o = x.others j e in rw (o.0, o.2) refl

  change-entries :
      (id : ℕ) (ch ch' : Chain L)
      → SolvencyInv currency rt ch
      → IsChange id ch ch'
      → (j : ℕ) → EntryAt rt ch' j
  change-entries id ch ch' inv x j = elim (Bool-cases (j == id)) [
    | inl e ↦ subst (EntryAt rt ch') (sym ((==_iff j id).0 e)) x.entry
    | inr e ↦
        let o = x.others j e in
        rw (o.0, o.1, o.2)
          (IsEntry-keep rt.balance_max (ch.pallet.claims j) (ch'.pallet.claims j) _ _ _ (x.kept j)
            (inv.entries j))
  ]

  pub IsChange-SolvencyInv :
      (id : ℕ) (ch ch' : Chain L)
      → SolvencyInv currency rt ch
      → IsChange id ch ch'
      → SolvencyInv currency rt ch'
  IsChange-SolvencyInv id ch ch' inv x = elim (Bool-cases (contains inv.ids id)) [
    | inl old ↦ record {
      ids = inv.ids;
      distinct = inv.distinct;
      complete = λ j h.
          let o = x.others j (ground (arith, ==_iff j id)) in
          let was = inv.complete j h in (rw o.0 was.0, rw o.2 was.1);
      backed = λ a. omega (
        arith,
        x.moved a,
        inv.backed a,
        total_bonds-at (bond_of ch.requests a) (bond_of ch'.requests a) id inv.ids inv.distinct old
            λ j e. bond_of-others id ch ch' a j x e,
      );
      entries = change-entries id ch ch' inv x;
    }
    | inr new ↦ record {
      ids = id ∷ inv.ids;
      distinct = (new, inv.distinct);
      complete = λ j h.
          let o = x.others j (ground arith) in
          let was = inv.complete j (ground arith) in (rw o.0 was.0, rw o.2 was.1);
      backed = λ a.
          let was = inv.complete id new in
          let nothing : bond_of ch.requests a id ≡ 0 = rw (was.0, was.1) refl in
          omega (
            arith,
            x.moved a,
            nothing,
            inv.backed a,
            total_bonds-off (bond_of ch.requests a) (bond_of ch'.requests a) id inv.ids new
                λ j e. bond_of-others id ch ch' a j x e,
          );
      entries = change-entries id ch ch' inv x;
    }
  ]

  -- An account's reserve covers its bond for each claim.
  pub bond-reserved :
      (ch : Chain L)
      → SolvencyInv currency rt ch
      → (a id : ℕ) → bond_of ch.requests a id ≤ reserved_balance_named a ch.ledger
  bond-reserved ch inv a id = elim (Bool-cases (contains inv.ids id)) [
    | inl old ↦ omega (arith, inv.backed a, bond-le (bond_of ch.requests a) id inv.ids old)
    | inr new ↦
        let was = inv.complete id new in
        let nothing : bond_of ch.requests a id ≡ 0 = rw (was.0, was.1) refl in
        omega (arith, nothing)
  ]

  -- A call that leaves the records and the ledger alone, and unsettles no claim.
  pub aside-SolvencyInv :
      (ch ch' : Chain L)
      → SolvencyInv currency rt ch
      → ch'.requests.claim_settlement_requests ≡ ch.requests.claim_settlement_requests
      → ch'.requests.bonded_claim_attested_at ≡ ch.requests.bonded_claim_attested_at
      → ch'.requests.bonded_claim_requester ≡ ch.requests.bonded_claim_requester
      → ch'.ledger ≡ ch.ledger
      → KeepsSettlement ch.pallet.claims ch'.pallet.claims
      → SolvencyInv currency rt ch'
  aside-SolvencyInv ch ch' inv q n h l keep = record {
    ids = inv.ids;
    distinct = inv.distinct;
    complete = rw (q, h) inv.complete;
    backed = rw (q, h, l) inv.backed;
    entries = λ j.
        rw (q, n, h)
          (IsEntry-keep rt.balance_max (ch.pallet.claims j) (ch'.pallet.claims j) _ _ _ (keep j)
            (inv.entries j));
  }
