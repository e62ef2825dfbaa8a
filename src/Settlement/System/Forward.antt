-- ===== src/Settlement/System/Forward.antt =====
-- The order on the states of an intent, and on storages by it.
use materios_intent_settleme.Common.{
  ℕ, ◌∙◌, ◌≡◌, refl, inl, inr, Option, none, some, arith, Option-cases, ◌≤◌, put, put-elim,
}
use materios_intent_settleme.Settlement.Types.{IntentStatus, Intent}
use materios_intent_settleme.Settlement.Settle.{set_status}

-- The order in which an intent passes through its states.
abbrev pub rank : IntentStatus → ℕ
rank IntentStatus.pending = 0
rank IntentStatus.attested = 1
rank IntentStatus.vouchered = 2
rank IntentStatus.refunded = 3
rank IntentStatus.expired = 4
rank IntentStatus.settled = 5

-- The same intent, at the same state or a later one.
pub record Follows (i i' : Intent) : Type 0 where
  pub same_submitter : i'.submitter ≡ i.submitter
  pub same_nonce : i'.nonce ≡ i.nonce
  pub same_kind : i'.kind ≡ i.kind
  pub same_block : i'.submitted_block ≡ i.submitted_block
  pub same_ttl : i'.ttl_block ≡ i.ttl_block
  pub no_earlier : rank i.status ≤ rank i'.status

abbrev pub Forward : Option Intent → Option Intent → Type 0
Forward none o = Unit
Forward (some i) none = ⊥
Forward (some i) (some i') = Follows i i'

abbrev pub AllForward : (ℕ → Option Intent) → (ℕ → Option Intent) → Type 0
AllForward m m' = (id : ℕ) → Forward (m id) (m' id)

pub Forward-refl : (o : Option Intent) → Forward o o
Forward-refl none = tt
Forward-refl (some i) = ground arith

pub Forward-trans : (a b c : Option Intent) → Forward a b → Forward b c → Forward a c
Forward-trans none b c f g = tt
Forward-trans (some i) none c f g = absurd f
Forward-trans (some i) (some j) none f g = absurd g
Forward-trans (some i) (some j) (some k) f g = record {
  same_submitter = g.same_submitter ∙ f.same_submitter;
  same_nonce = g.same_nonce ∙ f.same_nonce;
  same_kind = g.same_kind ∙ f.same_kind;
  same_block = g.same_block ∙ f.same_block;
  same_ttl = g.same_ttl ∙ f.same_ttl;
  no_earlier = omega (arith, f.no_earlier, g.no_earlier);
}

pub AllForward-refl : (m : ℕ → Option Intent) → AllForward m m
AllForward-refl m id = Forward-refl (m id)

pub AllForward-put :
    (m : ℕ → Option Intent) (k : ℕ) (o : Option Intent) → Forward (m k) o → AllForward m (put m k o)
AllForward-put m k o new = put-elim (λ id x. Forward (m id) x) m k o (AllForward-refl m) new

-- A new status for the intent under `k` that is no earlier.
pub AllForward-move :
    (m : ℕ → Option Intent) (k : ℕ) (i : Intent) (status : IntentStatus)
    → m k ≡ some i
    → rank i.status ≤ rank status
    → AllForward m (put m k (some (record i { status = status })))
AllForward-move m k i status was later = AllForward-put m k _ (
    rw was (record {
      same_submitter = refl;
      same_nonce = refl;
      same_kind = refl;
      same_block = refl;
      same_ttl = refl;
      no_earlier = later;
    }))

-- Settled is the last state, so the settlement of a claim moves its intent forward, if there is one.
pub AllForward-set_status :
    (m : ℕ → Option Intent) (k : ℕ) → AllForward m (set_status k IntentStatus.settled m)
AllForward-set_status m k = elim (Option-cases (m k)) [
  | inl missing ↦ rw (missing, set_status) (AllForward-refl m)
  | inr (i, e) ↦
      rw (e, set_status) (AllForward-move m k i IntentStatus.settled e (rank-le i.status))
]
  where
    rank-le : (s : IntentStatus) → rank s ≤ 5
    rank-le IntentStatus.pending = omega arith
    rank-le _ = omega arith
