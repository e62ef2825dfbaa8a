-- ===== src/Settlement/Pallet/BatchAttest.antt =====
-- The attestation of a batch of intents (`attest_batch_intents` of
-- pallets/intent-settlement/src/lib.rs).
use materios_intent_settleme.Common.{
  ℕ, ap, ◌∙◌, ◌≡◌, ◌⊎◌, refl, inl, inr, true, false, List, [], ◌∷◌, Option, some, ok, arith,
  Option-cases, Result-cases, Bool-cases, Distinct, contains, All, length, ◌==◌,
}
use materios_intent_settleme.Settlement.Types.{
  IntentStatus, Intent, Signature, Error, Event, is_pending, is_attested, is_pending_or_attested,
}
use materios_intent_settleme.Settlement.State.{Runtime, State, deposit_event}
use materios_intent_settleme.Settlement.Batches.{
  check_distinct_ids, hydrate_intents, all_attested, attest_entry, attest_one, attest_entries,
  attest_batch_intents,
}
use materios_intent_settleme.Settlement.System.Forward.{AllForward-move}
use materios_intent_settleme.Settlement.Pallet.Advance.{
  IsAdvance, IsAdvance-refl, IsAdvance-trans, IsUntouched-IsAdvance,
}
use materios_intent_settleme.Settlement.Pallet.Batched.{IsAdvance-same}
use materios_intent_settleme.Settlement.Threshold.Quorum.{IsQuorum, verify_threshold_signatures_iff}
use materios_intent_settleme.Settlement.Payloads.Batched.{attest_batch_intents_payload}

-- The stored intent of each entry is the hydrated one, which is pending or attested.
abbrev pub IsWaiting : (ℕ → Option Intent) → ℕ × Intent → Type 0
IsWaiting intents e = (intents e.0 ≡ some e.1) × (is_pending_or_attested e.1.status ≡ true)

abbrev pub intent_ids : List (ℕ × Intent) → List ℕ
intent_ids [] = []
intent_ids ((id, _) ∷ rest) = id ∷ intent_ids rest

pub hydrate_intents_sound :
    (ids : List ℕ) (s : State) (es : List (ℕ × Intent))
    → hydrate_intents ids s ≡ ok es
    → (intent_ids es ≡ ids) × All (IsWaiting s.intents) es
unfolding hydrate_intents
hydrate_intents_sound [] s [] h = (refl, tt)
hydrate_intents_sound [] s (e ∷ es) h = cc
hydrate_intents_sound (id ∷ ids) s es h = elim (Option-cases (s.intents id)) [
  | inl missing ↦ ground arith
  | inr (i, found) ↦ elim (Result-cases (hydrate_intents ids s)) [
    | inl (x, failed) ↦ ground arith
    | inr (tail, more) ↦
        let ih = hydrate_intents_sound ids s tail more in
        let whole : (id, i) ∷ tail ≡ es = ground arith in
        rw (← whole) (ap (λ r. id ∷ r) ih.0, ((found, ground arith), ih.1))
  ]
]

pub check_distinct_ids_sound :
    (e : Error) (ids : List ℕ) → check_distinct_ids e ids ≡ ok tt → Distinct ids
unfolding check_distinct_ids
check_distinct_ids_sound e [] h = tt
check_distinct_ids_sound e (id ∷ ids) h =
    (ground arith, check_distinct_ids_sound e ids (ground arith))

-- Entries of other ids stay waiting.
IsWaiting-other :
    (m m' : ℕ → Option Intent) (id : ℕ) (es : List (ℕ × Intent))
    → ((j : ℕ) → (j == id) ≡ false → m' j ≡ m j)
    → contains (intent_ids es) id ≡ false
    → All (IsWaiting m) es
    → All (IsWaiting m') es
IsWaiting-other m m' id [] same new w = tt
IsWaiting-other m m' id ((j, i) ∷ es) same new w =
    ((same j (ground arith) ∙ w.0.0, w.0.1), IsWaiting-other m m' id es same (ground arith) w.1)

-- An entry after the loop: attested, and with the bundle stored if it was pending.
abbrev pub IsAttestedBy : List Signature → State → ℕ × Intent → Type 0
IsAttestedBy sigs s e =
    (s.intents e.0 ≡ some (record e.1 { status = IntentStatus.attested }))
    × (is_pending e.1.status ≡ true → s.attestation_sigs e.0 ≡ some sigs)

pub record IsAttestedBatch (sigs : List Signature) (es : List (ℕ × Intent)) (s s' : State)
    : Type 0 where
  pub advance : IsAdvance s s'
  pub attested : All (IsAttestedBy sigs s') es
  pub others :
      (id : ℕ)
      → contains (intent_ids es) id ≡ false
      → (s'.intents id ≡ s.intents id) × (s'.attestation_sigs id ≡ s.attestation_sigs id)

-- One entry of the loop.
record IsOne (sigs : List Signature) (id : ℕ) (i : Intent) (s s' : State) : Type 0 where
  advance : IsAdvance s s'
  attested : IsAttestedBy sigs s' (id, i)
  others :
      (j : ℕ)
      → (j == id) ≡ false
      → (s'.intents j ≡ s.intents j) × (s'.attestation_sigs j ≡ s.attestation_sigs j)

attest_one-IsOne :
    (sigs : List Signature) (id : ℕ) (i : Intent) (s : State)
    → s.intents id ≡ some i
    → i.status ≡ IntentStatus.pending
    → IsOne sigs id i s (attest_one id i sigs s)
attest_one-IsOne sigs id i s was waiting = record {
  advance =
      IsUntouched-IsAdvance s (attest_one id i sigs s)
        (record { claims = refl; vouchers = refl; coverage = refl })
        (AllForward-move s.intents id i IntentStatus.attested was (rw waiting (omega arith)));
  attested = (ground arith, λ p. ground arith);
  others = λ j other. (ground arith, ground arith);
}

attest_entry-IsOne :
    (sigs : List Signature) (id : ℕ) (i : Intent) (fresh : ℕ) (s : State) (r : State × ℕ)
    → IsWaiting s.intents (id, i)
    → attest_entry id i sigs fresh s ≡ ok r
    → IsOne sigs id i s r.0
attest_entry-IsOne sigs id i fresh s r w h = elim (Bool-cases (is_attested i.status)) [
  | inl already ↦
      let same : r.0 ≡ s = ground arith in
      let status : i.status ≡ IntentStatus.attested = ground arith in
      rw same (record {
        advance = IsAdvance-refl s;
        attested =
            (w.0 ∙ ap (λ st. some (record i { status = st })) status, λ p. ground (arith, status));
        others = λ j other. (refl, refl);
      })
  | inr waiting ↦
      let pending : i.status ≡ IntentStatus.pending = ground (arith, w.1) in
      let same : r.0 ≡ attest_one id i sigs s = ground arith in
      rw same (attest_one-IsOne sigs id i s w.0 pending)
]

attest_entries-IsAttestedBatch :
    (es : List (ℕ × Intent)) (sigs : List Signature) (fresh : ℕ) (s : State) (r : State × ℕ)
    → Distinct (intent_ids es)
    → All (IsWaiting s.intents) es
    → attest_entries es sigs fresh s ≡ ok r
    → IsAttestedBatch sigs es s r.0
unfolding attest_entries
attest_entries-IsAttestedBatch [] sigs fresh s r d w h =
    let same : r.0 ≡ s = ground arith in
    rw same (record { advance = IsAdvance-refl s; attested = tt; others = λ id new. (refl, refl) })
attest_entries-IsAttestedBatch ((id, i) ∷ es) sigs fresh s r d w h =
    elim (Result-cases (attest_entry id i sigs fresh s)) [
      | inl (x, failed) ↦ absurd (ground arith)
      | inr (t, done) ↦
          let one = attest_entry-IsOne sigs id i fresh s t w.0 done in
          let rest =
            attest_entries-IsAttestedBatch es sigs t.1 t.0 r d.1
              (IsWaiting-other s.intents t.0.intents id es (λ j o. (one.others j o).0) d.0 w.1)
              (ground arith) in
          let later = rest.others id d.0 in
          record {
            advance = IsAdvance-trans s t.0 r.0 one.advance rest.advance;
            attested = ((later.0 ∙ one.attested.0, λ p. later.1 ∙ one.attested.1 p), rest.attested);
            others = λ j new.
                let a = rest.others j (ground arith) in
                let b = one.others j (ground arith) in (a.0 ∙ b.0, a.1 ∙ b.1);
          }
    ]

pub record IsBatchOf (rt : Runtime) (who : ℕ) (ids : List ℕ) (sigs : List Signature) (s s' : State)
    : Type 0 where
  pub entries : List (ℕ × Intent)
  pub same_ids : intent_ids entries ≡ ids
  pub waiting : All (IsWaiting s.intents) entries
  pub outcome :
      ((all_attested entries ≡ true) × (s' ≡ s))
      ⊎ (IsQuorum rt s (attest_batch_intents_payload rt rt.chain_id ids) who sigs
          × IsAttestedBatch sigs entries s s')

-- An attestation of a batch that succeeds names intents that are stored and pending or attested
-- already. Either all of them were attested and the state is left as it is, or the committee's
-- quorum signed the batch's payload and each of them ends attested, the pending ones with the
-- batch's signatures, while the intents and signatures of all other ids are left alone. The coverage
-- counter then stays right, where it is right a settled claim stays as it was, and no intent is lost
-- or falls back.
pub attest_batch_intents-IsBatchOf :
    (rt : Runtime) (who : ℕ) (ids : List ℕ) (sigs : List Signature) (s s' : State)
    → attest_batch_intents rt who ids sigs s ≡ ok s'
    → IsBatchOf rt who ids sigs s s'
unfolding attest_batch_intents
attest_batch_intents-IsBatchOf rt who ids sigs s s' h =
    elim (Result-cases (hydrate_intents ids s)) [
      | inl (x, failed) ↦ ground arith
      | inr (es, found) ↦
          let sound = hydrate_intents_sound ids s es found in
          let d = check_distinct_ids_sound Error.duplicate_intent_in_batch ids (ground arith) in
          record {
            entries = es;
            same_ids = sound.0;
            waiting = sound.1;
            outcome = elim (Bool-cases (all_attested es)) [
              | inl over ↦ inl (over, ground arith)
              | inr fresh ↦ elim (Result-cases (attest_entries es sigs 0 s)) [
                | inl (x, failed) ↦ absurd (ground arith)
                | inr (t, done) ↦
                    let b =
                      attest_entries-IsAttestedBatch es sigs 0 s t (rw sound.0 d) sound.1 done in
                    let digest = attest_batch_intents_payload rt rt.chain_id ids in
                    let same : s'
                        ≡ deposit_event
                            (Event.batch_intents_attested (length ids) t.1 digest (length sigs))
                            t.0 =
                      ground arith in
                    inr (
                      (verify_threshold_signatures_iff rt s digest who sigs).0 (ground arith),
                      record {
                        advance = rw same (IsAdvance-same s t.0 _ b.advance refl refl refl refl);
                        attested = rw same b.attested;
                        others = rw same b.others;
                      },
                    )
              ]
            ];
          }
    ]

pub attest_batch_intents-IsAdvance :
    (rt : Runtime) (who : ℕ) (ids : List ℕ) (sigs : List Signature) (s s' : State)
    → attest_batch_intents rt who ids sigs s ≡ ok s'
    → IsAdvance s s'
attest_batch_intents-IsAdvance rt who ids sigs s s' h =
    elim ((attest_batch_intents-IsBatchOf rt who ids sigs s s' h).outcome) [
      | inl (over, same) ↦ rw same (IsAdvance-refl s)
      | inr (q, b) ↦ b.advance
    ]
