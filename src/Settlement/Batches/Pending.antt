-- ===== src/Settlement/Batches/Pending.antt =====
-- The keeper's view of attested intents against its description (`get_pending_batches` of
-- pallets/intent-settlement/src/lib.rs).
use Prim.Native.Nat.{max}
use materios_intent_settleme.Common.{
  ℕ, zero, suc, ap, sym, ◌+◌, ◌-◌, ◌≤◌, ◌<◌, ◌≡◌, refl, inl, inr, List, [], ◌∷◌, ◌++◌,
  if◌then◌else◌, Bool, false, not, ltb, leb, Option, none, some, length, take, arith, Bool-cases,
  Option-cases, u32_max, as_u32, ◌∙◌,
}
use materios_intent_settleme.Settlement.State.{State}
use materios_intent_settleme.Settlement.Batches.{
  BatchPayload, is_listed, payload_of, pending_from, get_pending_batches, max_committee,
  sigs_or_default,
}
use materios_intent_settleme.Settlement.Types.{Signature, Intent, IntentStatus}

-- The block of an intent's submission is looked at where its status is attested.
abbrev is_due : ℕ → IntentStatus → ℕ → Bool
is_due since_block IntentStatus.attested submitted = not (ltb submitted since_block)
is_due since_block _ submitted = false

-- The first 32 of the signatures that are stored.
abbrev first_sigs : Option (List Signature) → List Signature
first_sigs none = []
first_sigs (some sigs) = take 32 sigs

-- What the view shows of one id of the index.
abbrev pub shown : State → ℕ → ℕ → Option Intent → List BatchPayload
shown s since_block id none = []
shown s since_block id (some i) =
    if is_due since_block i.status i.submitted_block
    then record {
      intent = i;
      intent_id = id;
      attestation_sigs = first_sigs (s.attestation_sigs id);
    }
      ∷ []
    else []

-- All that the view can show, in the order of the index.
abbrev pub all_pending : State → ℕ → List ℕ → List BatchPayload
all_pending s since_block [] = []
all_pending s since_block (id ∷ ids) =
    shown s since_block id (s.intents id) ++ all_pending s since_block ids

is_due-is_listed :
    (since_block : ℕ) (i : Intent)
    → is_due since_block i.status i.submitted_block ≡ is_listed since_block (some i)
is_due-is_listed since_block i = ground arith

first_sigs-payload :
    (o : Option (List Signature)) → first_sigs o ≡ take max_committee (sigs_or_default o)
first_sigs-payload none = refl
first_sigs-payload (some sigs) = refl

shown-payload :
    (s : State) (since_block id : ℕ) (o : Option Intent)
    → shown s since_block id o ≡ (if is_listed since_block o then payload_of s id o else [])
shown-payload s since_block id none = refl
shown-payload s since_block id (some i) =
    rw (is_due-is_listed since_block i, first_sigs-payload (s.attestation_sigs id)) refl

take-nil : (k : ℕ) → take {A = BatchPayload} k [] ≡ []
take-nil zero = refl
take-nil (suc k) = refl

take-cons :
    (k : ℕ) (p : BatchPayload) (ps : List BatchPayload) → take (suc k) (p ∷ ps) ≡ p ∷ take k ps
take-cons k p ps = refl

-- A payload is pushed, and the loop ends or goes on.
push-take :
    (max_count count : ℕ) (p : BatchPayload) (next ps : List BatchPayload)
    → count < max max_count 1
    → count < u32_max
    → (count + 1 < max max_count 1 → next ≡ take (max max_count 1 - (count + 1)) ps)
    → p ∷ (if leb max_count (as_u32 (count + 1)) then [] else next)
      ≡ take (max max_count 1 - count) (p ∷ ps)
push-take max_count count p next ps h small more = elim (Bool-cases (leb max_count (count + 1))) [
  | inl last ↦
      let one : max max_count 1 - count ≡ 1 = ground arith in
      let exact : as_u32 (count + 1) ≡ count + 1 = omega arith in rw (one, exact) (rw last refl)
  | inr on ↦
      let k = max max_count 1 - (count + 1) in
      let next_k : max max_count 1 - count ≡ suc k = ground arith in
      let exact : as_u32 (count + 1) ≡ count + 1 = omega arith in
      rw (next_k, exact) (rw on (ap (λ r. p ∷ r) (more (ground arith))))
]

pending_from-take :
    (s : State) (since_block max_count count : ℕ) (ids : List ℕ)
    → count < max max_count 1
    → count + length ids ≤ u32_max
    → pending_from s since_block max_count count ids
      ≡ take (max max_count 1 - count) (all_pending s since_block ids)
unfolding pending_from
pending_from-take s since_block max_count count [] h fits = sym (take-nil (max max_count 1 - count))
pending_from-take s since_block max_count count (id ∷ ids) h fits =
    elim (Bool-cases (is_listed since_block (s.intents id))) [
      | inr skipped ↦
          rw (shown-payload s since_block id (s.intents id))
            (rw skipped (pending_from-take s since_block max_count count ids h (omega arith)))
      | inl listed ↦ elim (Option-cases (s.intents id)) [
        | inl missing ↦ absurd (ground arith)
        | inr (i, e) ↦ rw (shown-payload s since_block id (s.intents id)) (
            rw listed (
              rw e (
                push-take max_count count _ _ _ h (omega arith) (λ on.
                  pending_from-take s since_block max_count (count + 1) ids on (omega arith)))))
      ]
    ]

-- The view, over an index of at most 2^32 - 1 ids, shows the intents of the index that are attested
-- and were submitted at the given block or after it, in the order of the index, each with its id
-- and the first 32 of its stored signatures, cut to the first `max_count` of them, or to the first
-- one where `max_count` is 0.
pub get_pending_batches-take :
    (s : State) (since_block max_count : ℕ)
    → length s.pending_batches ≤ u32_max
    → get_pending_batches s since_block max_count
      ≡ take (max max_count 1) (all_pending s since_block s.pending_batches)
unfolding get_pending_batches
get_pending_batches-take s since_block max_count fits =
    let whole : max max_count 1 - 0 ≡ max max_count 1 = omega arith in
    pending_from-take s since_block max_count 0 s.pending_batches (ground arith)
      (omega (arith, fits))
    ∙ ap (λ k. take k (all_pending s since_block s.pending_batches)) whole
