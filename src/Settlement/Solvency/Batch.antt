-- ===== src/Settlement/Solvency/Batch.antt =====
-- The attested settlement of a batch keeps the bonds backed and pays each claim once
-- (`attest_batch_settle` of pallets/intent-settlement/src/lib.rs).
use materios_intent_settleme.Common.{
  ℕ, ap, ◌-◌, ◌≡◌, ◌∙◌, refl, inl, inr, false, List, [], ◌∷◌, some, ok, put, arith, if◌then◌else◌,
  ◌==◌, Option-cases, Result-cases, Distinct, contains, All, sat_add, u64_max, u32_max,
}
use materios_intent_settleme.Settlement.Evidence.{SettlementRequestRecord}
use materios_intent_settleme.Settlement.Types.{Claim, Signature, IntentStatus, CardanoIdentity}
use materios_intent_settleme.Settlement.State.{Runtime}
use materios_intent_settleme.Settlement.Currency.{Currency, Chain}
use materios_intent_settleme.Settlement.Settle.{settled_claim, set_status}
use materios_intent_settleme.Settlement.Cardano.{cardano_ids}
use materios_intent_settleme.Settlement.Attested.Batch.{
  Hydrated, hydrate_request, hydrate_requests, settle_hydrated_entry, settle_hydrated,
  attest_batch_settle,
}
use materios_intent_settleme.Settlement.Coverage.Batch.{check_distinct_sound}
use materios_intent_settleme.Settlement.Solvency.{SolvencyInv}
use materios_intent_settleme.Settlement.Solvency.Change.{aside-SolvencyInv}
use materios_intent_settleme.Settlement.Solvency.Attest.{
  IsPinned, IsPinned-SolvencyInv, KeepsSettlement-settled,
}

abbrev pub hydrated_ids : List Hydrated → List ℕ
hydrated_ids [] = []
hydrated_ids (h ∷ rest) = h.bytes.claim_id ∷ hydrated_ids rest

-- The entry is that of an open claim and of a pending request.
pub record IsReady {L : Type 0} (ch : Chain L) (h : Hydrated) : Type 0 where
  pub claim : Claim
  pub request : SettlementRequestRecord
  pub was : ch.pallet.claims h.bytes.claim_id ≡ some claim
  pub was_open : claim.is_settled ≡ false
  pub amount : h.amount ≡ claim.amount_ada
  pub intent : h.intent_id ≡ claim.intent_id
  pub pending : ch.requests.claim_settlement_requests h.bytes.claim_id ≡ some request
  pub bond : h.bond ≡ request.bond_amount

hydrate_request-IsReady :
    {L : Type 0} (rt : Runtime) (cardano : CardanoIdentity) (ch : Chain L) (cid : ℕ) (h : Hydrated)
    → hydrate_request rt cardano ch cid ≡ ok h
    → (h.bytes.claim_id ≡ cid) × IsReady ch h
unfolding hydrate_request
hydrate_request-IsReady rt cardano ch cid h e =
    elim (Option-cases (ch.requests.claim_settlement_requests cid)) [
      | inl missing ↦ ground arith
      | inr (q, f) ↦ elim (Option-cases (ch.pallet.claims cid)) [
        | inl missing ↦ ground arith
        | inr (c, g) ↦
            let same : h.bytes.claim_id ≡ cid = ground arith in
            (
              same,
              record {
                claim = c;
                request = q;
                was = rw same g;
                was_open = ground arith;
                amount = ground arith;
                intent = ground arith;
                pending = rw same f;
                bond = ground arith;
              },
            )
      ]
    ]

pub hydrate_requests-IsReady :
    {L : Type 0} (rt : Runtime) (cardano : CardanoIdentity) (ch : Chain L) (ids : List ℕ)
    (hs : List Hydrated)
    → hydrate_requests rt cardano ch ids ≡ ok hs
    → (hydrated_ids hs ≡ ids) × All (IsReady ch) hs
unfolding hydrate_requests
hydrate_requests-IsReady rt cardano ch [] [] e = (refl, tt)
hydrate_requests-IsReady rt cardano ch [] (h ∷ hs) e = cc
hydrate_requests-IsReady rt cardano ch (cid ∷ ids) hs e =
    elim (Result-cases (hydrate_request rt cardano ch cid)) [
      | inl (x, failed) ↦ ground arith
      | inr (h, one) ↦ elim (Result-cases (hydrate_requests rt cardano ch ids)) [
        | inl (x, failed) ↦ ground arith
        | inr (tail, more) ↦
            let first = hydrate_request-IsReady rt cardano ch cid h one in
            let ih = hydrate_requests-IsReady rt cardano ch ids tail more in
            let whole : h ∷ tail ≡ hs = ground arith in
            rw (← whole) (rw (first.0, ih.0) refl, (first.1, ih.1))
      ]
    ]

-- One entry: its request is consumed and its claim settled.
pub record IsEntrySettled {L : Type 0} (h : Hydrated) (c : Claim) (q : SettlementRequestRecord)
    (ch ch' : Chain L) : Type 0 where
  pub pinned : IsPinned h.bytes.claim_id q ch ch'
  pub claims :
      ch'.pallet.claims
      ≡ put ch.pallet.claims h.bytes.claim_id
          (some (settled_claim c h.bytes.cardano_tx_hash h.direct))
  pub vouchers : ch'.pallet.vouchers ≡ ch.pallet.vouchers
  pub intents : ch'.pallet.intents ≡ set_status c.intent_id IntentStatus.settled ch.pallet.intents
  pub pool : ch'.pallet.pool ≡ ch.pallet.pool

pub settle_hydrated_entry-IsEntrySettled :
    {L : Type 0} (h : Hydrated) (ch ch' : Chain L) (r : IsReady ch h)
    → settle_hydrated_entry h ch ≡ ok ch'
    → IsEntrySettled h r.claim r.request ch ch'
unfolding settle_hydrated_entry
settle_hydrated_entry-IsEntrySettled h ch ch' r e =
    let was = r.was in
    let pending = r.pending in
    let bond = r.bond in
    let intent = r.intent in
    record {
      pinned = record {
        pending = pending;
        gone = ground arith;
        unbonded = λ z. (ground arith, ground arith);
        bonded = λ p. (ground arith, ground arith);
        others = λ j other. (ground arith, ground arith, ground arith);
        ledger = ground arith;
      };
      claims = ground arith;
      vouchers = ground arith;
      intents = ground arith;
      pool = ground arith;
    }

-- Entries of other claims stay ready.
IsReady-after :
    {L : Type 0} (h : Hydrated) (c : Claim) (q : SettlementRequestRecord) (ch ch' : Chain L)
    (hs : List Hydrated)
    → IsEntrySettled h c q ch ch'
    → contains (hydrated_ids hs) h.bytes.claim_id ≡ false
    → All (IsReady ch) hs
    → All (IsReady ch') hs
IsReady-after h c q ch ch' [] x new ready = tt
IsReady-after h c q ch ch' (g ∷ hs) x new ready =
    let r = ready.0 in
    let other : (g.bytes.claim_id == h.bytes.claim_id) ≡ false = ground arith in
    (
      record {
        claim = r.claim;
        request = r.request;
        was = rw x.claims (rw other r.was);
        was_open = r.was_open;
        amount = r.amount;
        intent = r.intent;
        pending = (x.pinned.others g.bytes.claim_id other).0 ∙ r.pending;
        bond = r.bond;
      },
      IsReady-after h c q ch ch' hs x (ground arith) ready.1,
    )

-- What the settlement of one ready entry keeps, the loop keeps.
pub settle_hydrated-keeps {κ} :
    {L : Type 0} (P : ℕ → Chain L → Type κ)
    → ((h : Hydrated) (ch ch' : Chain L) (total : ℕ) (r : IsReady ch h)
        → IsEntrySettled h r.claim r.request ch ch'
        → P total ch
        → P (sat_add u64_max total h.amount) ch')
    → (hs : List Hydrated) (total direct : ℕ) (ch : Chain L) (out : Chain L × ℕ × ℕ)
    → Distinct (hydrated_ids hs)
    → All (IsReady ch) hs
    → P total ch
    → settle_hydrated hs total direct ch ≡ ok out
    → P out.1 out.0
unfolding settle_hydrated
settle_hydrated-keeps P keep [] total direct ch out d ready p e =
    let same : (ch, total, direct) ≡ out = ground arith in rw (← same) p
settle_hydrated-keeps P keep (h ∷ hs) total direct ch out d ready p e =
    elim (Result-cases (settle_hydrated_entry h ch)) [
      | inl (x, failed) ↦ ground arith
      | inr (ch', one) ↦
          let x = settle_hydrated_entry-IsEntrySettled h ch ch' ready.0 one in
          settle_hydrated-keeps P keep hs (sat_add u64_max total h.amount)
            (if h.direct then sat_add u32_max direct 1 else direct) ch' out d.1
            (IsReady-after h ready.0.claim ready.0.request ch ch' hs x d.0 ready.1)
            (keep h ch ch' total ready.0 x p) (ground arith)
    ]

-- A batch that succeeds has looped over ready entries, and then taken their total from the pool.
pub record IsBatchAttested {L : Type 0} (ids : List ℕ) (ch ch' : Chain L) : Type 0 where
  pub hydrated : List Hydrated
  pub direct : ℕ
  pub total : ℕ
  pub looped : Chain L
  pub same_ids : hydrated_ids hydrated ≡ ids
  pub ready : All (IsReady ch) hydrated
  pub distinct : Distinct (hydrated_ids hydrated)
  pub ran : settle_hydrated hydrated 0 0 ch ≡ ok (looped, total, direct)
  pub claims : ch'.pallet.claims ≡ looped.pallet.claims
  pub vouchers : ch'.pallet.vouchers ≡ looped.pallet.vouchers
  pub intents : ch'.pallet.intents ≡ looped.pallet.intents
  pub coverage :
      ch'.pallet.pool.outstanding_coverage_ada ≡ looped.pallet.pool.outstanding_coverage_ada - total
  pub nav : ch'.pallet.pool.total_nav_ada ≡ looped.pallet.pool.total_nav_ada - total
  pub requests : ch'.requests ≡ looped.requests
  pub ledger : ch'.ledger ≡ looped.ledger

pub attest_batch_settle-IsBatchAttested :
    {L : Type 0} (rt : Runtime) (who : ℕ) (ids : List ℕ) (sigs : List Signature) (ch ch' : Chain L)
    → attest_batch_settle rt who ids sigs ch ≡ ok ch'
    → IsBatchAttested ids ch ch'
unfolding attest_batch_settle
attest_batch_settle-IsBatchAttested rt who ids sigs ch ch' e =
    elim (Result-cases (cardano_ids ch.pallet)) [
      | inl (x, failed) ↦ ground arith
      | inr (cardano, found) ↦ elim (Result-cases (hydrate_requests rt cardano ch ids)) [
        | inl (x, failed) ↦ ground arith
        | inr (hs, done) ↦ elim (Result-cases (settle_hydrated hs 0 0 ch)) [
          | inl (x, failed) ↦ ground arith
          | inr ((t, total, direct), ran) ↦
              let ready = hydrate_requests-IsReady rt cardano ch ids hs done in
              let distinct = check_distinct_sound ids (ground arith) in
              record {
                hydrated = hs;
                direct = direct;
                total = total;
                looped = t;
                same_ids = ready.0;
                ready = ready.1;
                distinct = rw ready.0 distinct;
                ran = ran;
                claims = ground arith;
                vouchers = ground arith;
                intents = ground arith;
                coverage = ground arith;
                nav = ground arith;
                requests = ground arith;
                ledger = ground arith;
              }
        ]
      ]
    ]

module _ {L : Type 0} (currency : Currency L) (rt : Runtime) where
  pub attest_batch_settle-SolvencyInv :
      (who : ℕ) (ids : List ℕ) (sigs : List Signature) (ch ch' : Chain L)
      → SolvencyInv currency rt ch
      → attest_batch_settle rt who ids sigs ch ≡ ok ch'
      → SolvencyInv currency rt ch'
  attest_batch_settle-SolvencyInv who ids sigs ch ch' inv e =
      let b = attest_batch_settle-IsBatchAttested rt who ids sigs ch ch' e in
      let kept =
        settle_hydrated-keeps (λ total t. SolvencyInv currency rt t)
          (λ h t t' total r x i.
            IsPinned-SolvencyInv currency rt h.bytes.claim_id r.request t t' i x.pinned
              (rw x.claims (KeepsSettlement-settled t.pallet.claims _ _ h.direct r.claim))
              (rw x.claims (ground arith)))
          b.hydrated 0 0 ch (b.looped, b.total, b.direct) b.distinct b.ready inv b.ran in
      aside-SolvencyInv currency rt b.looped ch' kept
        (ap (λ r. r.claim_settlement_requests) b.requests)
        (ap (λ r. r.bonded_claim_attested_at) b.requests)
        (ap (λ r. r.bonded_claim_requester) b.requests) b.ledger λ j. rw b.claims (λ c. c)
