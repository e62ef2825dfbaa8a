-- ===== src/Settlement/Settle.antt =====
-- The legacy settlement of claims, one by one and in an atomic batch (`settle_claim`,
-- `settle_batch_atomic`, `ensure_legacy_settle_path_open` of
-- pallets/intent-settlement/src/lib.rs). `who` is the account of the signed origin.
use materios_intent_settleme.Common.{
  ℕ, ◌-◌, Bool, true, false, List, [], ◌∷◌, ◌++◌, Option, none, some, ◌==◌, ltb, leb, not, put,
  if◌then◌else◌, ensure, ok_or, Result, ok, ◌>>=◌, ◌>>◌, length, sat_add, u32_max, u64_max,
  as_bytes, to_le_bytes, contains,
}
use materios_intent_settleme.Settlement.Types.{
  Signature, IntentStatus, Intent, Claim, PoolUtilizationParams, Error, Event,
}
use materios_intent_settleme.Settlement.State.{Runtime, State, deposit_event}
use materios_intent_settleme.Settlement.Payloads.{Tag, domain_hash, settle_claim_payload}
use materios_intent_settleme.Settlement.Threshold.{verify_threshold_signatures}
use materios_intent_settleme.Settlement.Voucher.{remove_from_pending_batches}

unfoldable pub ensure_legacy_settle_path_open : State → Result Error (Unit {0})
ensure_legacy_settle_path_open s =
    if s.stca_cutover_block == 0
    then ensure (ltb s.settlement_storage_version 1) Error.deprecated_extrinsic
    else ensure (ltb s.block_number s.stca_cutover_block) Error.deprecated_extrinsic

abbrev pub settled_claim : Claim → ℕ → Bool → Claim
settled_claim c cardano_tx_hash settled_direct = record c {
  is_settled = true;
  settled_direct = settled_direct;
  cardano_tx_hash = cardano_tx_hash;
}

-- `if let Some(mut intent) = Intents::get(..)`
abbrev pub set_status : ℕ → IntentStatus → (ℕ → Option Intent) → ℕ → Option Intent
set_status intent_id status intents = elim (intents intent_id) [
  | none ↦ intents
  | some i ↦ put intents intent_id (some (record i { status = status }))
]

-- The writes that settle one claim, but for the pool's.
unfoldable pub settle_entry : ℕ → Claim → ℕ → Bool → State → State
settle_entry claim_id c cardano_tx_hash settled_direct s =
    remove_from_pending_batches c.intent_id (record s {
      claims = put s.claims claim_id (some (settled_claim c cardano_tx_hash settled_direct));
      pre_audit_settlement = put s.pre_audit_settlement claim_id true;
      intents = set_status c.intent_id IntentStatus.settled s.intents;
    })

-- Both counters go down by the amount paid, and stop at 0.
abbrev pub pay_out : ℕ → PoolUtilizationParams → PoolUtilizationParams
pay_out amount u = record u {
  outstanding_coverage_ada = u.outstanding_coverage_ada - amount;
  total_nav_ada = u.total_nav_ada - amount;
}

abbrev pub pay_from_pool : ℕ → State → State
pay_from_pool amount s = record s { pool = pay_out amount s.pool }

unfoldable pub settle_claim :
    Runtime → ℕ → ℕ → ℕ → Bool → List Signature → State → Result Error State
unfolding settle_entry ensure_legacy_settle_path_open
settle_claim rt who claim_id cardano_tx_hash settled_direct signatures s = do
  ensure_legacy_settle_path_open s
  ensure (rt.is_member who) Error.not_committee_member
  ensure (leb (length signatures) rt.max_committee) Error.too_many_signatures
  claim ← ok_or (s.claims claim_id) Error.claim_not_found
  if claim.is_settled then ok s else (do
    verify_threshold_signatures rt s
        (settle_claim_payload rt rt.chain_id claim_id cardano_tx_hash settled_direct) who signatures
    ok (
        deposit_event (Event.claim_settled claim_id cardano_tx_hash settled_direct) (
          pay_from_pool claim.amount_ada
            (settle_entry claim_id claim cardano_tx_hash settled_direct s))))

pub record SettleBatchEntry : Type 0 where
  pub claim_id : ℕ
  pub cardano_tx_hash : ℕ
  pub settled_direct : Bool

abbrev tag_stba : Tag
tag_stba = b'S' ∷ b'T' ∷ b'B' ∷ b'A' ∷ []

unfoldable entries_bytes : List SettleBatchEntry → List ℕ
entries_bytes [] = []
entries_bytes (e ∷ rest) =
    as_bytes 32 e.claim_id
    ++ (as_bytes 32 e.cardano_tx_hash ++ ((if e.settled_direct then 1 else 0) ∷ entries_bytes rest))

unfoldable pub settle_batch_atomic_payload : Runtime → ℕ → List SettleBatchEntry → ℕ
unfolding entries_bytes
settle_batch_atomic_payload rt chain_id entries =
    domain_hash rt tag_stba
      (as_bytes 32 chain_id ++ (to_le_bytes 4 (length entries) ++ entries_bytes entries))

abbrev pub claim_ids : List SettleBatchEntry → List ℕ
claim_ids [] = []
claim_ids (e ∷ rest) = e.claim_id ∷ claim_ids rest

-- Every pair of entries is compared, the earlier with each later one.
unfoldable pub check_distinct : List ℕ → Result Error (Unit {0})
check_distinct [] = ok tt
check_distinct (id ∷ rest) =
    let next = check_distinct rest in
    do ensure (not (contains rest id)) Error.duplicate_claim_in_batch; next

-- `hydrated_claims`: every claim is read and found unsettled before anything is written.
unfoldable pub hydrate :
    List SettleBatchEntry → State → Result Error (List (SettleBatchEntry × Claim))
hydrate [] s = ok []
hydrate (e ∷ rest) s =
    let next = hydrate rest s in
    do
      claim ← ok_or (s.claims e.claim_id) Error.claim_not_found
      ensure (not claim.is_settled) Error.batch_claim_already_settled
      pairs ← next
      ok ((e, claim) ∷ pairs)

-- The loop over the hydrated entries, with the total amount and the count of direct ones.
unfoldable pub settle_entries : List (SettleBatchEntry × Claim) → ℕ → ℕ → State → State × ℕ × ℕ
unfolding settle_entry
settle_entries [] total direct s = (s, total, direct)
settle_entries ((e, c) ∷ rest) total direct s =
    settle_entries rest (sat_add u64_max total c.amount_ada)
      (if e.settled_direct then sat_add u32_max direct 1 else direct)
      (settle_entry e.claim_id c e.cardano_tx_hash e.settled_direct s)

abbrev is_empty : List SettleBatchEntry → Bool
is_empty [] = true
is_empty (_ ∷ _) = false

abbrev settle_batch : ℕ → ℕ → State × ℕ × ℕ → State
settle_batch count batch_digest (s, total, direct) =
    deposit_event (Event.batch_settled count batch_digest direct) (pay_from_pool total s)

unfoldable pub settle_batch_atomic :
    Runtime → ℕ → List SettleBatchEntry → List Signature → State → Result Error State
unfolding check_distinct hydrate settle_entries ensure_legacy_settle_path_open
settle_batch_atomic rt who entries signatures s = do
  ensure_legacy_settle_path_open s
  ensure (rt.is_member who) Error.not_committee_member
  ensure (leb (length signatures) rt.max_committee) Error.too_many_signatures
  ensure (not (is_empty entries)) Error.empty_batch
  let payload = settle_batch_atomic_payload rt rt.chain_id entries
  check_distinct (claim_ids entries)
  pairs ← hydrate entries s
  verify_threshold_signatures rt s payload who signatures
  ok (settle_batch (length entries) payload (settle_entries pairs 0 0 s))
