-- ===== src/Settlement/Pallet/BatchMint.antt =====
-- The mint of a batch of vouchers (`request_batch_vouchers` of
-- pallets/intent-settlement/src/lib.rs).
use materios_intent_settleme.Common.{
  ℕ, ap, ◌+◌, ◌∙◌, ◌≡◌, refl, inl, inr, false, List, [], ◌∷◌, none, some, ok, put, arith,
  Option-cases, Result-cases, Distinct, contains, All, sat_add, u64_max, length,
}
use materios_intent_settleme.Settlement.Types.{
  IntentStatus, Intent, Signature, Error, Event, CardanoIdentity,
}
use materios_intent_settleme.Settlement.State.{Runtime, State, deposit_event}
use materios_intent_settleme.Settlement.Payloads.Batched.{VoucherTuple}
use materios_intent_settleme.Settlement.Cardano.{cardano_ids}
use materios_intent_settleme.Settlement.Batches.Vouchers.{
  RequestVoucherEntry, voucher_claim_ids, tuple_of, tuples_of, mint_entry, mint_entries,
  request_batch_vouchers,
}
use materios_intent_settleme.Settlement.Voucher.{claim_of}
use materios_intent_settleme.Settlement.Coverage.Mint.{IsMinted, IsMinted-CoverageInv}
use materios_intent_settleme.Settlement.System.Forward.{AllForward-move}
use materios_intent_settleme.Settlement.System.Advances.{Advances}
use materios_intent_settleme.Settlement.System.Finality.{KeepsSettled-of_put}
use materios_intent_settleme.Settlement.Pallet.Advance.{IsAdvance, IsAdvance-refl, IsAdvance-trans}
use materios_intent_settleme.Settlement.Pallet.Batched.{IsAdvance-same}
use materios_intent_settleme.Settlement.Threshold.Quorum.{IsQuorum, verify_threshold_signatures_iff}
use materios_intent_settleme.Settlement.Payloads.Batched.{request_batch_vouchers_payload}
use materios_intent_settleme.Settlement.Batches.Vouchers.{tuples}
use materios_intent_settleme.Settlement.Pallet.BatchAttest.{check_distinct_ids_sound}

abbrev pub Pairs : Type 0
Pairs = List (RequestVoucherEntry × VoucherTuple)

abbrev pub pair_claim_ids : Pairs → List ℕ
pair_claim_ids [] = []
pair_claim_ids ((e, _) ∷ rest) = e.claim_id ∷ pair_claim_ids rest

-- No voucher stands under the entry's id.
abbrev pub IsNewEntry : State → RequestVoucherEntry × VoucherTuple → Type 0
IsNewEntry s p = s.vouchers p.0.claim_id ≡ none

tuple_of-new :
    (rt : Runtime) (cardano : CardanoIdentity) (s : State) (e : RequestVoucherEntry)
    (t : VoucherTuple)
    → tuple_of rt cardano s e ≡ ok t
    → s.vouchers e.claim_id ≡ none
unfolding tuple_of
tuple_of-new rt cardano s e t h = ground arith

tuples_of_sound :
    (rt : Runtime) (cardano : CardanoIdentity) (s : State) (entries : List RequestVoucherEntry)
    (pairs : Pairs)
    → tuples_of rt cardano s entries ≡ ok pairs
    → (pair_claim_ids pairs ≡ voucher_claim_ids entries) × All (IsNewEntry s) pairs
unfolding tuples_of
tuples_of_sound rt cardano s [] [] h = (refl, tt)
tuples_of_sound rt cardano s [] (p ∷ pairs) h = cc
tuples_of_sound rt cardano s (e ∷ rest) pairs h = elim (Result-cases (tuple_of rt cardano s e)) [
  | inl (x, failed) ↦ ground arith
  | inr (t, one) ↦ elim (Result-cases (tuples_of rt cardano s rest)) [
    | inl (x, failed) ↦ ground arith
    | inr (tail, more) ↦
        let ih = tuples_of_sound rt cardano s rest tail more in
        let whole : (e, t) ∷ tail ≡ pairs = ground arith in
        let new : s.vouchers e.claim_id ≡ none = tuple_of-new rt cardano s e t one in
        rw (← whole) (ap (λ r. e.claim_id ∷ r) ih.0, (new, ih.1))
  ]
]

abbrev pub pair_entries : Pairs → List RequestVoucherEntry
pair_entries [] = []
pair_entries ((e, _) ∷ rest) = e ∷ pair_entries rest

tuples_of_entries :
    (rt : Runtime) (cardano : CardanoIdentity) (s : State) (entries : List RequestVoucherEntry)
    (pairs : Pairs)
    → tuples_of rt cardano s entries ≡ ok pairs
    → pair_entries pairs ≡ entries
unfolding tuples_of
tuples_of_entries rt cardano s [] [] h = refl
tuples_of_entries rt cardano s [] (p ∷ pairs) h = cc
tuples_of_entries rt cardano s (e ∷ rest) pairs h = elim (Result-cases (tuple_of rt cardano s e)) [
  | inl (x, failed) ↦ ground arith
  | inr (t, one) ↦ elim (Result-cases (tuples_of rt cardano s rest)) [
    | inl (x, failed) ↦ ground arith
    | inr (tail, more) ↦
        let whole : (e, t) ∷ tail ≡ pairs = ground arith in
        rw (← whole) (ap (λ r. e ∷ r) (tuples_of_entries rt cardano s rest tail more))
  ]
]

-- One mint of the loop.
pub record IsEntryMinted (e : RequestVoucherEntry) (s s' : State) : Type 0 where
  pub minted : s.vouchers e.claim_id ≡ none → IsMinted e.claim_id e.intent_id e.voucher s s'
  pub advances : Advances s s'
  pub intent : Intent
  pub was_attested : (s.intents e.intent_id ≡ some intent) × (intent.status ≡ IntentStatus.attested)
  pub vouchers : s'.vouchers ≡ put s.vouchers e.claim_id (some e.voucher)

mint_entry-IsEntryMinted :
    (e : RequestVoucherEntry) (t : VoucherTuple) (s s' : State)
    → mint_entry e t s ≡ ok s'
    → IsEntryMinted e s s'
unfolding mint_entry
mint_entry-IsEntryMinted e t s s' h = elim (Option-cases (s.intents e.intent_id)) [
  | inl missing ↦ ground arith
  | inr (i, found) ↦
      let attested : i.status ≡ IntentStatus.attested = ground arith in
      let stored : s'.intents
          ≡ put s.intents e.intent_id (some (record i { status = IntentStatus.vouchered })) =
        ground arith in
      record {
        minted = λ new. record {
          was_new = new;
          claims_put = ground arith;
          vouchers_put = ground arith;
          grown = ground arith;
          fits = ground arith;
        };
        advances = rw stored (
            AllForward-move s.intents e.intent_id i IntentStatus.vouchered found
              (rw attested (omega arith)));
        intent = i;
        was_attested = (found, attested);
        vouchers = ground arith;
      }
]

IsEntryMinted-IsAdvance :
    (e : RequestVoucherEntry) (s s' : State)
    → s.vouchers e.claim_id ≡ none
    → IsEntryMinted e s s'
    → IsAdvance s s'
IsEntryMinted-IsAdvance e s s' new x =
    let m = x.minted new in
    record {
      coverage = λ inv. IsMinted-CoverageInv e.claim_id e.intent_id e.voucher s s' m inv;
      settled = λ inv.
          KeepsSettled-of_put s s' e.claim_id (some (claim_of e.intent_id e.voucher)) m.claims_put
            λ c was done. ground (arith, inv.paired e.claim_id, new);
      forward = x.advances;
    }

-- Ids that are not minted stay new.
IsNewEntry-after :
    (s s' : State) (e : RequestVoucherEntry) (pairs : Pairs)
    → s'.vouchers ≡ put s.vouchers e.claim_id (some e.voucher)
    → contains (pair_claim_ids pairs) e.claim_id ≡ false
    → All (IsNewEntry s) pairs
    → All (IsNewEntry s') pairs
IsNewEntry-after s s' e [] v new a = tt
IsNewEntry-after s s' e ((f, t) ∷ pairs) v new a =
    (rw v (ground (arith, a.0)), IsNewEntry-after s s' e pairs v (ground arith) a.1)

abbrev pub amounts : Pairs → ℕ
amounts [] = 0
amounts ((e, _) ∷ rest) = e.voucher.amount_ada + amounts rest

-- The claim and the voucher of an entry are stored, the claim open.
abbrev pub IsStoredEntry : State → RequestVoucherEntry × VoucherTuple → Type 0
IsStoredEntry s p =
    (s.vouchers p.0.claim_id ≡ some p.0.voucher)
    × (s.claims p.0.claim_id ≡ some (claim_of p.0.intent_id p.0.voucher))

pub record IsMintedBatch (pairs : Pairs) (s s' : State) : Type 0 where
  pub advance : IsAdvance s s'
  pub grown : s'.pool.outstanding_coverage_ada ≡ s.pool.outstanding_coverage_ada + amounts pairs
  pub stored : All (IsStoredEntry s') pairs
  pub others :
      (id : ℕ)
      → contains (pair_claim_ids pairs) id ≡ false
      → (s'.vouchers id ≡ s.vouchers id) × (s'.claims id ≡ s.claims id)

mint_entries-IsMintedBatch :
    (pairs : Pairs) (total : ℕ) (s : State) (r : State × ℕ)
    → Distinct (pair_claim_ids pairs)
    → All (IsNewEntry s) pairs
    → mint_entries pairs total s ≡ ok r
    → IsMintedBatch pairs s r.0
unfolding mint_entries
mint_entries-IsMintedBatch [] total s r d new h =
    let same : r.0 ≡ s = ground arith in
    rw same (record {
      advance = IsAdvance-refl s;
      grown = ground arith;
      stored = tt;
      others = λ id other. (refl, refl);
    })
mint_entries-IsMintedBatch ((e, t) ∷ pairs) total s r d new h =
    elim (Result-cases (mint_entry e t s)) [
      | inl (x, failed) ↦ absurd (ground arith)
      | inr (s', done) ↦
          let one = mint_entry-IsEntryMinted e t s s' done in
          let m = one.minted new.0 in
          let rest =
            mint_entries-IsMintedBatch pairs (sat_add u64_max total e.voucher.amount_ada) s' r d.1
              (IsNewEntry-after s s' e pairs one.vouchers d.0 new.1) (ground arith) in
          let later = rest.others e.claim_id d.0 in
          record {
            advance =
                IsAdvance-trans s s' r.0 (IsEntryMinted-IsAdvance e s s' new.0 one) rest.advance;
            grown = omega (arith, rest.grown, m.grown);
            stored = (
              (later.0 ∙ rw one.vouchers (ground arith), later.1 ∙ rw m.claims_put (ground arith)),
              rest.stored,
            );
            others = λ id other.
                let a = rest.others id (ground arith) in
                (a.0 ∙ rw one.vouchers (ground arith), a.1 ∙ rw m.claims_put (ground arith));
          }
    ]

pub record IsBatchMinted (rt : Runtime) (who : ℕ) (entries : List RequestVoucherEntry)
    (sigs : List Signature) (s s' : State) : Type 0 where
  pub pairs : Pairs
  pub cardano : CardanoIdentity
  pub pinned : cardano_ids s ≡ ok cardano
  pub computed : tuples_of rt cardano s entries ≡ ok pairs
  pub same_entries : pair_entries pairs ≡ entries
  pub new_ids : All (IsNewEntry s) pairs
  pub quorum : IsQuorum rt s (request_batch_vouchers_payload rt rt.chain_id (tuples pairs)) who sigs
  pub minted : IsMintedBatch pairs s s'

-- A mint of a batch of vouchers that succeeds is signed by the committee over the entries' own
-- tuples, in their order, as the pinned Cardano chain determines them. It stores for each entry its
-- voucher and an open claim, where there was no voucher before, raises the outstanding coverage by
-- the sum of the entries' amounts, and leaves the vouchers and claims of all other ids alone. The
-- coverage counter stays right, where it is right a settled claim stays as it was, and no intent is
-- lost or falls back.
pub request_batch_vouchers-IsBatchMinted :
    (rt : Runtime) (who : ℕ) (entries : List RequestVoucherEntry) (sigs : List Signature)
    (s s' : State)
    → request_batch_vouchers rt who entries sigs s ≡ ok s'
    → IsBatchMinted rt who entries sigs s s'
unfolding request_batch_vouchers
request_batch_vouchers-IsBatchMinted rt who entries sigs s s' h =
    elim (Result-cases (cardano_ids s)) [
      | inl (x, failed) ↦ ground arith
      | inr (cardano, found) ↦ elim (Result-cases (tuples_of rt cardano s entries)) [
        | inl (x, failed) ↦ ground arith
        | inr (pairs, hydrated) ↦ elim (Result-cases (mint_entries pairs 0 s)) [
          | inl (x, failed) ↦ ground arith
          | inr (t, done) ↦
              let sound = tuples_of_sound rt cardano s entries pairs hydrated in
              let d =
                check_distinct_ids_sound Error.duplicate_claim_in_voucher_batch
                  (voucher_claim_ids entries) (ground arith) in
              let digest = request_batch_vouchers_payload rt rt.chain_id (tuples pairs) in
              let b = mint_entries-IsMintedBatch pairs 0 s t (rw sound.0 d) sound.1 done in
              let same : s'
                  ≡ deposit_event (Event.batch_vouchers_issued (length entries) digest t.1) t.0 =
                ground arith in
              record {
                pairs = pairs;
                cardano = cardano;
                pinned = found;
                computed = hydrated;
                same_entries = tuples_of_entries rt cardano s entries pairs hydrated;
                new_ids = sound.1;
                quorum = (verify_threshold_signatures_iff rt s digest who sigs).0 (ground arith);
                minted = rw same (record {
                  advance = IsAdvance-same s t.0 _ b.advance refl refl refl refl;
                  grown = b.grown;
                  stored = b.stored;
                  others = b.others;
                });
              }
        ]
      ]
    ]
