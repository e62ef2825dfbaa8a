-- ===== src/Settlement/System/Advances.antt =====
-- What each call does to the intents: none is lost or altered, and none goes back.
use materios_intent_settleme.Common.{
  ℕ, sat_add, u64_max, if◌then◌else◌, ◌≡◌, inl, inr, Bool, List, [], ◌∷◌, some, ok, arith,
  Result-cases, Option-cases, ◌≤◌, put, u32_max, Bool-cases,
}
use Prim.Native.Nat.{min}
use materios_intent_settleme.Settlement.Types.{
  IntentStatus, IntentKind, Claim, Voucher, BatchFairnessProof, Signature, is_settled_or_expired,
  is_pending_or_attested, PoolUtilizationParams,
}
use materios_intent_settleme.Settlement.State.{Runtime, State}
use materios_intent_settleme.Settlement.Submit.{
  do_submit_intent, submit_intent, request_credit_refund,
}
use materios_intent_settleme.Settlement.Submit.Effects.{do_submit_intent-IsSubmitted}
use materios_intent_settleme.Settlement.Attest.{attest_intent}
use materios_intent_settleme.Settlement.Attest.Bundles.{attest_intent-Outcome}
use materios_intent_settleme.Settlement.Voucher.{request_voucher}
use materios_intent_settleme.Settlement.Settle.{
  SettleBatchEntry, set_status, settle_entry, settle_entries, settle_claim, settle_batch_atomic,
  hydrate,
}
use materios_intent_settleme.Settlement.Expire.{
  expire_intent, expire_intents, on_initialize, expire_policy_mirror,
}
use materios_intent_settleme.Settlement.Deposit.{credit_deposit, set_pool_utilization}
use materios_intent_settleme.Settlement.Threshold.{set_min_signer_threshold}
use materios_intent_settleme.Settlement.Cardano.{bind_aegis_policy_v1}
use materios_intent_settleme.Settlement.System.Forward.{
  rank, AllForward, Forward-trans, AllForward-refl, AllForward-put, AllForward-move,
  AllForward-set_status,
}

-- No intent is lost, altered or moved back from one storage to the other.
abbrev pub Advances : State → State → Type 0
Advances s s' = AllForward s.intents s'.intents

pub Advances-trans : (s t u : State) → Advances s t → Advances t u → Advances s u
Advances-trans s t u f g =
    λ id. Forward-trans (s.intents id) (t.intents id) (u.intents id) (f id) (g id)

pub Advances-of_same : (s s' : State) → s'.intents ≡ s.intents → Advances s s'
Advances-of_same s s' e = rw e (AllForward-refl s.intents)

pub do_submit_intent-Advances :
    (rt : Runtime) (who : ℕ) (kind : IntentKind) (s : State) (id : ℕ) (s' : State)
    → do_submit_intent rt who kind s ≡ ok (id, s')
    → Advances s s'
do_submit_intent-Advances rt who kind s id s' h =
    let done = do_submit_intent-IsSubmitted rt who kind s id s' h in
    rw done.stored (AllForward-put s.intents id _ (rw done.id_was_free tt))

pub submit_intent-Advances :
    (rt : Runtime) (who : ℕ) (kind : IntentKind) (s s' : State)
    → submit_intent rt who kind s ≡ ok s'
    → Advances s s'
unfolding submit_intent
submit_intent-Advances rt who kind s s' h = elim (Result-cases (do_submit_intent rt who kind s)) [
  | inl (e, failed) ↦ absurd (ground arith)
  | inr ((id, t), done) ↦
      let same : t ≡ s' = ground (arith, done) in
      rw (← same) (do_submit_intent-Advances rt who kind s id t done)
]

pub request_credit_refund-Advances :
    (rt : Runtime) (who amount : ℕ) (s s' : State)
    → request_credit_refund rt who amount s ≡ ok s'
    → Advances s s'
unfolding request_credit_refund
request_credit_refund-Advances rt who amount s s' h =
    elim (Result-cases (do_submit_intent rt who (IntentKind.refund_credit amount) s)) [
      | inl (e, failed) ↦ absurd (ground arith)
      | inr ((id, t), done) ↦
          let same : s'.intents ≡ t.intents = ground arith in
          rw same (do_submit_intent-Advances rt who _ s id t done)
    ]

pub attest_intent-Advances :
    (rt : Runtime) (who id pubkey sig : ℕ) (s s' : State)
    → attest_intent rt who id pubkey sig s ≡ ok s'
    → Advances s s'
attest_intent-Advances rt who id pubkey sig s s' h =
    elim (attest_intent-Outcome rt who id pubkey sig s s' h) [
      | inl same ↦ rw same (AllForward-refl s.intents)
      | inr (added, outcome) ↦ elim outcome [
        | inl c ↦ Advances-of_same s s' c.intents_kept
        | inr c ↦
            let was_pending : c.intent.status ≡ IntentStatus.pending =
              ground (arith, added.open_intent.1, added.open_intent.2, c.was) in
            rw c.attested (
              AllForward-move s.intents id c.intent IntentStatus.attested c.was
                (rw was_pending (omega arith)))
      ]
    ]

pub request_voucher-Advances :
    (rt : Runtime) (who claim_id id : ℕ) (v : Voucher) (proof : BatchFairnessProof)
    (sigs : List Signature) (s s' : State)
    → request_voucher rt who claim_id id v proof sigs s ≡ ok s'
    → Advances s s'
unfolding request_voucher
request_voucher-Advances rt who claim_id id v proof sigs s s' h =
    elim (Option-cases (s.intents id)) [
      | inl missing ↦ absurd (ground arith)
      | inr (i, e) ↦
          let was_attested : i.status ≡ IntentStatus.attested = ground arith in
          let stored : s'.intents
              ≡ put s.intents id (some (record i { status = IntentStatus.vouchered })) =
            ground arith in
          rw stored (
            AllForward-move s.intents id i IntentStatus.vouchered e (rw was_attested (omega arith)))
    ]

pub settle_claim-Advances :
    (rt : Runtime) (who claim_id tx : ℕ) (direct : Bool) (sigs : List Signature) (s s' : State)
    → settle_claim rt who claim_id tx direct sigs s ≡ ok s'
    → Advances s s'
unfolding settle_claim
settle_claim-Advances rt who claim_id tx direct sigs s s' h =
    elim (Option-cases (s.claims claim_id)) [
      | inl missing ↦ absurd (ground arith)
      | inr (c, e) ↦ elim (Bool-cases c.is_settled) [
        | inl done ↦ Advances-of_same s s' (ground arith)
        | inr due ↦
            let stored : s'.intents ≡ set_status c.intent_id IntentStatus.settled s.intents =
              ground arith in
            rw stored (AllForward-set_status s.intents c.intent_id)
      ]
    ]

settle_entries-Advances :
    (pairs : List (SettleBatchEntry × Claim)) (total direct : ℕ) (s : State)
    → Advances s (settle_entries pairs total direct s).0
unfolding settle_entries
settle_entries-Advances [] total direct s = AllForward-refl s.intents
settle_entries-Advances ((e, c) ∷ rest) total direct s =
    let next = settle_entry e.claim_id c e.cardano_tx_hash e.settled_direct s in
    let grown = sat_add u64_max total c.amount_ada in
    let direct' = if e.settled_direct then sat_add u32_max direct 1 else direct in
    Advances-trans s next (settle_entries rest grown direct' next).0
      (AllForward-set_status s.intents c.intent_id)
      (settle_entries-Advances rest grown direct' next)

pub settle_batch_atomic-Advances :
    (rt : Runtime) (who : ℕ) (entries : List SettleBatchEntry) (sigs : List Signature)
    (s s' : State)
    → settle_batch_atomic rt who entries sigs s ≡ ok s'
    → Advances s s'
unfolding settle_batch_atomic
settle_batch_atomic-Advances rt who entries sigs s s' h = elim (Result-cases (hydrate entries s)) [
  | inl (x, failed) ↦ absurd (ground arith)
  | inr (pairs, e) ↦
      let stored : s'.intents ≡ (settle_entries pairs 0 0 s).0.intents = ground arith in
      rw stored (settle_entries-Advances pairs 0 0 s)
]

pub expire_policy_mirror-Advances :
    (rt : Runtime) (who id : ℕ) (s s' : State)
    → expire_policy_mirror rt who id s ≡ ok s'
    → Advances s s'
unfolding expire_policy_mirror
expire_policy_mirror-Advances rt who id s s' h = elim (Option-cases (s.intents id)) [
  | inl missing ↦ absurd (ground arith)
  | inr (i, e) ↦ elim (Bool-cases (is_settled_or_expired i.status)) [
    | inl over ↦ Advances-of_same s s' (ground arith)
    | inr alive ↦
        let stored : s'.intents
            ≡ put s.intents id (some (record i { status = IntentStatus.expired })) =
          ground arith in
        let earlier : rank i.status ≤ 4 = ground arith in
        rw stored (AllForward-move s.intents id i IntentStatus.expired e earlier)
  ]
]

expire_intent-Advances : (id : ℕ) (s : State) → Advances s (expire_intent id s)
unfolding expire_intent
expire_intent-Advances id s = elim (Option-cases (s.intents id)) [
  | inl missing ↦ Advances-of_same s (expire_intent id s) (ground arith)
  | inr (i, e) ↦ elim (Bool-cases (is_pending_or_attested i.status)) [
    | inl waiting ↦
        let stored : (expire_intent id s).intents
            ≡ put s.intents id (some (record i { status = IntentStatus.expired })) =
          ground arith in
        let earlier : rank i.status ≤ 4 = ground arith in
        rw stored (AllForward-move s.intents id i IntentStatus.expired e earlier)
    | inr over ↦ Advances-of_same s (expire_intent id s) (ground arith)
  ]
]

expire_intents-Advances : (ids : List ℕ) (s : State) → Advances s (expire_intents ids s)
unfolding expire_intents
expire_intents-Advances [] s = AllForward-refl s.intents
expire_intents-Advances (id ∷ ids) s =
    Advances-trans s (expire_intent id s) (expire_intents ids (expire_intent id s))
      (expire_intent-Advances id s) (expire_intents-Advances ids (expire_intent id s))

pub on_initialize-Advances : (n : ℕ) (s : State) → Advances s (on_initialize n s)
unfolding on_initialize
on_initialize-Advances n s =
    expire_intents-Advances (s.expiry_queue (min n u32_max))
      (record s { expiry_queue = put s.expiry_queue (min n u32_max) [] })

pub credit_deposit-intents :
    (rt : Runtime) (who target amount tx : ℕ) (sigs : List Signature) (s s' : State)
    → credit_deposit rt who target amount tx sigs s ≡ ok s'
    → s'.intents ≡ s.intents
unfolding credit_deposit
credit_deposit-intents rt who target amount tx sigs s s' h = ground arith

pub set_pool_utilization-intents :
    (is_root : Bool) (params : PoolUtilizationParams) (s s' : State)
    → set_pool_utilization is_root params s ≡ ok s'
    → s'.intents ≡ s.intents
unfolding set_pool_utilization
set_pool_utilization-intents is_root params s s' h = ground arith

pub set_min_signer_threshold-intents :
    (rt : Runtime) (is_root : Bool) (floor : ℕ) (s s' : State)
    → set_min_signer_threshold rt is_root floor s ≡ ok s'
    → s'.intents ≡ s.intents
unfolding set_min_signer_threshold
set_min_signer_threshold-intents rt is_root floor s s' h = ground arith

pub bind_aegis_policy_v1-intents :
    (is_root : Bool) (hash : ℕ) (s s' : State)
    → bind_aegis_policy_v1 is_root hash s ≡ ok s'
    → s'.intents ≡ s.intents
unfolding bind_aegis_policy_v1
bind_aegis_policy_v1-intents is_root hash s s' h = ground arith
