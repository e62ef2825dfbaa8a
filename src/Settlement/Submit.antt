-- ===== src/Settlement/Submit.antt =====
-- Submission of intents (`do_submit_intent`, `submit_intent`, `request_credit_refund` of
-- pallets/intent-settlement/src/lib.rs). `who` is the account of the signed origin.
use materios_intent_settleme.Common.{
  ℕ, ◌-◌, ◌/◌, Bool, List, [], ◌∷◌, ◌++◌, ◌==◌, ltb, leb, not, if◌then◌else◌, some, put, is_some,
  ensure, Result, ok, ◌>>=◌, ◌>>◌, length, sat_add, sat_mul, as_u32, u32_max, u64_max, u128_max,
}
use Prim.Native.Nat.{min, max}
use materios_intent_settleme.Settlement.Types.{
  IntentKind, IntentStatus, Intent, PoolUtilizationParams, Error, Event, max_expire_per_block,
}
use materios_intent_settleme.Settlement.State.{Runtime, State, deposit_event}
use materios_intent_settleme.Settlement.Payloads.{account_to_bytes, compute_intent_id}
pub mod Effects
pub mod Cap

-- `new_bps`: the multiplication is in u128, and the quotient is cast to u32.
unfoldable pub utilization_bps : PoolUtilizationParams → ℕ → ℕ
utilization_bps u premium_ada =
    let proposed = sat_add u64_max u.outstanding_coverage_ada premium_ada in
    as_u32 (sat_mul u128_max proposed 10000 / max u.total_nav_ada 1)

-- The two `if let` at the head: what the intent holds is taken from the submitter's credit.
unfoldable pub reserve_credit : ℕ → IntentKind → State → Result Error State
unfolding utilization_bps
reserve_credit who (IntentKind.buy_policy _ _ _ premium_ada _) s = do
  let c = s.credits who
  ensure (leb premium_ada c) Error.insufficient_credit
  ensure (leb (utilization_bps s.pool premium_ada) s.pool.cap_bps) Error.pool_utilization_exceeded
  ok (record s { credits = put s.credits who (c - premium_ada) })
reserve_credit who (IntentKind.refund_credit amount_ada) s = do
  let c = s.credits who
  ensure (leb amount_ada c) Error.insufficient_credit
  ok (record s { credits = put s.credits who (c - amount_ada) })
reserve_credit who _ s = ok s

unfoldable pub now_u32 : State → ℕ
now_u32 s = min s.block_number u32_max

unfoldable pub ttl_block_of : Runtime → State → ℕ
unfolding now_u32
ttl_block_of rt s =
    sat_add u32_max (now_u32 s) (if s.intent_ttl == 0 then rt.default_intent_ttl else s.intent_ttl)

-- `queue.try_push(id)`, whose failure is ignored.
unfoldable try_enqueue : List ℕ → ℕ → List ℕ
try_enqueue queue id = if ltb (length queue) max_expire_per_block then queue ++ id ∷ [] else queue

unfoldable pub next_intent_id : Runtime → ℕ → IntentKind → State → ℕ
unfolding now_u32
next_intent_id rt who kind s =
    compute_intent_id rt (account_to_bytes rt who) (s.nonces who) kind (now_u32 s)

unfoldable pub new_intent : Runtime → ℕ → IntentKind → State → Intent
unfolding now_u32 ttl_block_of
new_intent rt who kind s = record {
  submitter = who;
  nonce = s.nonces who;
  kind = kind;
  submitted_block = now_u32 s;
  ttl_block = ttl_block_of rt s;
  status = IntentStatus.pending;
}

unfoldable pub record_intent : Runtime → ℕ → IntentKind → State → Result Error (ℕ × State)
unfolding try_enqueue
record_intent rt who kind s = do
  let nonce = s.nonces who
  let ttl_block = ttl_block_of rt s
  let intent_id = next_intent_id rt who kind s
  ensure (not (is_some (s.intents intent_id))) Error.duplicate_intent
  ensure (ltb (length s.pending_batches) rt.max_pending_batches) Error.pending_batches_full
  ok (
    intent_id,
    deposit_event (Event.intent_submitted intent_id who nonce) (record s {
      intents = put s.intents intent_id (some (new_intent rt who kind s));
      nonces = put s.nonces who (sat_add u64_max nonce 1);
      pending_batches = s.pending_batches ++ intent_id ∷ [];
      expiry_queue =
          put s.expiry_queue ttl_block (try_enqueue (s.expiry_queue ttl_block) intent_id);
    }),
  )

unfoldable pub do_submit_intent : Runtime → ℕ → IntentKind → State → Result Error (ℕ × State)
unfolding reserve_credit record_intent
do_submit_intent rt who kind s = do s' ← reserve_credit who kind s; record_intent rt who kind s'

unfoldable pub submit_intent : Runtime → ℕ → IntentKind → State → Result Error State
submit_intent rt who kind s = do submitted ← do_submit_intent rt who kind s; ok submitted.1

unfoldable pub request_credit_refund : Runtime → ℕ → ℕ → State → Result Error State
request_credit_refund rt who amount_ada s = do
  ensure (leb amount_ada (s.credits who)) Error.insufficient_credit
  submitted ← do_submit_intent rt who (IntentKind.refund_credit amount_ada) s
  ok (deposit_event (Event.credit_refund_requested submitted.0 who amount_ada) submitted.1)
