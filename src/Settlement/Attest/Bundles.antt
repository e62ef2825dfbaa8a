-- ===== src/Settlement/Attest/Bundles.antt =====
-- The bundles of attestations hold distinct, valid signatures of members (`attest_intent` of
-- pallets/intent-settlement/src/lib.rs, and what `attest_batch_intents` stores beside it).
use materios_intent_settleme.Common.{
  ℕ, put, put-elim, Option, leb, ◌<◌, ◌≤◌, ◌≡◌, refl, ◌⊎◌, inl, inr, true, false, some, List, [],
  ◌∷◌, ◌++◌, ◌==◌, any, length, contains, Distinct, Distinct-snoc, All, All-snoc, ok, arith,
  Bool-cases, Option-cases,
}
use materios_intent_settleme.Settlement.Types.{Signature, IntentStatus, Intent, is_pending}
use materios_intent_settleme.Settlement.State.{Runtime, State}
use materios_intent_settleme.Settlement.Payloads.{attest_intent_payload}
use materios_intent_settleme.Settlement.Payloads.Batched.{attest_batch_intents_payload}
use materios_intent_settleme.Settlement.Threshold.Quorum.{keys, IsSigner, IsValidSignature}
use materios_intent_settleme.Settlement.Attest.{add_attestation, attest_intent}

-- The key that the runtime derives from the account of some member.
abbrev pub IsMemberKey : Runtime → ℕ → Type 0
IsMemberKey rt k = (a : ℕ) × (rt.pubkey_of a ≡ k) × (rt.is_member a ≡ true)

pub record IsBundle (rt : Runtime) (id : ℕ) (bundle : List Signature) : Type 0 where
  pub distinct : Distinct (keys bundle)
  pub members : All (IsMemberKey rt) (keys bundle)
  pub valid : All (IsValidSignature rt (attest_intent_payload rt rt.chain_id id)) bundle

-- Signatures over the digest of a batch that names the intent.
pub record IsBatchBundle (rt : Runtime) (id : ℕ) (bundle : List Signature) : Type 0 where
  pub batch : List ℕ
  pub named : contains batch id ≡ true
  pub some_signature : 0 < length bundle
  pub distinct : Distinct (keys bundle)
  pub members : All (IsSigner rt) (keys bundle)
  pub valid : All (IsValidSignature rt (attest_batch_intents_payload rt rt.chain_id batch)) bundle

-- A bundle that attests the intent, by its own digest or by that of a batch.
abbrev pub IsAttestation : Runtime → ℕ → List Signature → Type 0
IsAttestation rt id bundle =
    (IsBundle rt id bundle × (rt.threshold ≤ length bundle)) ⊎ IsBatchBundle rt id bundle

abbrev pub IsStored : Runtime → ℕ → Option (List Signature) → Type 0
IsStored rt id stored =
    (bundle : List Signature) → stored ≡ some bundle → IsAttestation rt id bundle

pub record BundlesInv (rt : Runtime) (s : State) : Type 0 where
  pub collected : (id : ℕ) → IsBundle rt id (s.pending_attestations id)
  pub stored : (id : ℕ) → IsStored rt id (s.attestation_sigs id)

keys-snoc :
    (bundle : List Signature) (e : Signature) → keys (bundle ++ e ∷ []) ≡ keys bundle ++ e.0 ∷ []
keys-snoc [] e = refl
keys-snoc ((k, g) ∷ rest) e = ground (arith, keys-snoc rest e)

any-keys : (k : ℕ) (bundle : List Signature) → any (λ e. e.0 == k) bundle ≡ contains (keys bundle) k
any-keys k [] = refl
any-keys k ((p, _) ∷ rest) = ground (arith, any-keys k rest)

pub nil-IsBundle : (rt : Runtime) (id : ℕ) → IsBundle rt id []
nil-IsBundle rt id = record { distinct = tt; members = tt; valid = tt }

snoc-IsBundle :
    (rt : Runtime) (id : ℕ) (bundle : List Signature) (e : Signature)
    → IsBundle rt id bundle
    → IsMemberKey rt e.0
    → any (λ x. x.0 == e.0) bundle ≡ false
    → rt.verify e.0 e.1 (attest_intent_payload rt rt.chain_id id) ≡ true
    → IsBundle rt id (bundle ++ e ∷ [])
snoc-IsBundle rt id bundle e old member fresh valid = record {
  distinct =
      rw (keys-snoc bundle e)
        (Distinct-snoc (keys bundle) e.0 old.distinct (rw (any-keys e.0 bundle) at fresh));
  members =
      rw (keys-snoc bundle e) (All-snoc (IsMemberKey rt) (keys bundle) e.0 old.members member);
  valid = All-snoc _ bundle e old.valid valid;
}

-- A signature has been added for an open intent: the signer is a member under that key, the key is
-- new to the bundle, and the signature is valid.
pub record IsAdded (rt : Runtime) (who id pubkey sig : ℕ) (s : State) : Type 0 where
  pub member : IsMemberKey rt pubkey
  pub open_intent : (i : Intent) × (s.intents id ≡ some i) × (i.status ≡ IntentStatus.pending)
  pub fresh : any (λ e. e.0 == pubkey) (s.pending_attestations id) ≡ false
  pub valid : rt.verify pubkey sig (attest_intent_payload rt rt.chain_id id) ≡ true

abbrev pub grown : ℕ → ℕ → ℕ → State → List Signature
grown id pubkey sig s = s.pending_attestations id ++ (pubkey, sig) ∷ []

pub record IsCollecting (rt : Runtime) (id pubkey sig : ℕ) (s s' : State) : Type 0 where
  pub short : length (grown id pubkey sig s) < rt.threshold
  pub bundle : s'.pending_attestations ≡ put s.pending_attestations id (grown id pubkey sig s)
  pub sigs_kept : s'.attestation_sigs ≡ s.attestation_sigs
  pub intents_kept : s'.intents ≡ s.intents

pub record IsCrossed (rt : Runtime) (id pubkey sig : ℕ) (s s' : State) : Type 0 where
  pub enough : rt.threshold ≤ length (grown id pubkey sig s)
  pub bundle :
      s'.pending_attestations ≡ put (put s.pending_attestations id (grown id pubkey sig s)) id []
  pub sigs : s'.attestation_sigs ≡ put s.attestation_sigs id (some (grown id pubkey sig s))
  pub intent : Intent
  pub was : s.intents id ≡ some intent
  pub attested :
      s'.intents ≡ put s.intents id (some (record intent { status = IntentStatus.attested }))

abbrev pub Outcome : Runtime → ℕ → ℕ → ℕ → ℕ → State → State → Type 0
Outcome rt who id pubkey sig s s' =
    (s' ≡ s)
    ⊎ (IsAdded rt who id pubkey sig s
        × (IsCollecting rt id pubkey sig s s' ⊎ IsCrossed rt id pubkey sig s s'))

add_attestation-Outcome :
    (rt : Runtime) (who id pubkey sig : ℕ) (s s' : State) (i : Intent)
    → s.intents id ≡ some i
    → i.status ≡ IntentStatus.pending
    → IsMemberKey rt pubkey
    → add_attestation rt id (pubkey, sig) s ≡ ok s'
    → Outcome rt who id pubkey sig s s'
unfolding add_attestation
add_attestation-Outcome rt who id pubkey sig s s' i e p m h =
    let added : IsAdded rt who id pubkey sig s = record {
      member = m;
      open_intent = (i, e, p);
      fresh = ground arith;
      valid = ground arith;
    } in
    elim (Bool-cases (leb rt.threshold (length (grown id pubkey sig s)))) [
      | inl enough ↦ inr (
        added,
        inr (record {
          enough = ground arith;
          bundle = ground arith;
          sigs = ground arith;
          intent = i;
          was = e;
          attested = ground arith;
        }),
      )
      | inr short ↦ inr (
        added,
        inl (record {
          short = ground arith;
          bundle = ground arith;
          sigs_kept = ground arith;
          intents_kept = ground arith;
        }),
      )
    ]

pub attest_intent-Outcome :
    (rt : Runtime) (who id pubkey sig : ℕ) (s s' : State)
    → attest_intent rt who id pubkey sig s ≡ ok s'
    → Outcome rt who id pubkey sig s s'
unfolding attest_intent
attest_intent-Outcome rt who id pubkey sig s s' h = elim (Option-cases (s.intents id)) [
  | inl e ↦ ground arith
  | inr (i, e) ↦ elim (Bool-cases (is_pending i.status)) [
    | inl waiting ↦
        add_attestation-Outcome rt who id pubkey sig s s' i e (ground arith)
          (who, ground arith, ground arith) (ground arith)
    | inr done ↦ inl (ground arith)
  ]
]

grown-IsBundle :
    (rt : Runtime) (who id pubkey sig : ℕ) (s : State)
    → BundlesInv rt s
    → IsAdded rt who id pubkey sig s
    → IsBundle rt id (grown id pubkey sig s)
grown-IsBundle rt who id pubkey sig s inv a =
    snoc-IsBundle rt id (s.pending_attestations id) (pubkey, sig) (inv.collected id) a.member
      a.fresh a.valid

-- An `attest_intent` call keeps the bundles well-formed.
pub attest_intent-BundlesInv :
    (rt : Runtime) (who id pubkey sig : ℕ) (s s' : State)
    → BundlesInv rt s
    → attest_intent rt who id pubkey sig s ≡ ok s'
    → BundlesInv rt s'
attest_intent-BundlesInv rt who id pubkey sig s s' inv h =
    elim (attest_intent-Outcome rt who id pubkey sig s s' h) [
      | inl same ↦ rw same inv
      | inr (a, outcome) ↦ elim outcome [
        | inl c ↦ record {
          collected = rw c.bundle (
              put-elim (IsBundle rt) s.pending_attestations id (grown id pubkey sig s) inv.collected
                (grown-IsBundle rt who id pubkey sig s inv a));
          stored = rw c.sigs_kept inv.stored;
        }
        | inr c ↦ record {
          collected = rw c.bundle (
              put-elim (IsBundle rt) _ id []
                (put-elim (IsBundle rt) s.pending_attestations id (grown id pubkey sig s)
                  inv.collected (grown-IsBundle rt who id pubkey sig s inv a))
                (nil-IsBundle rt id));
          stored = rw c.sigs (
              put-elim (IsStored rt) s.attestation_sigs id (some (grown id pubkey sig s)) inv.stored
                λ b e.
                  let same : grown id pubkey sig s ≡ b = cc in
                  rw (← same) (inl (grown-IsBundle rt who id pubkey sig s inv a, c.enough)));
        }
      ]
    ]
