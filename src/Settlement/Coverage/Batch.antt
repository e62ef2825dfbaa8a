-- ===== src/Settlement/Coverage/Batch.antt =====
-- The atomic batch (`settle_batch_atomic`) settles every entry and keeps the coverage equal to what
-- the unsettled claims owe.
use materios_intent_settleme.Common.{
  ℕ, ap, ◌∙◌, ◌+◌, ◌-◌, ◌≤◌, ◌≡◌, refl, inl, inr, true, false, List, [], ◌∷◌, Option, some, put,
  is_some, contains, Distinct, All, arith, ok, Option-cases, Result-cases, u64_max, sat_add,
  if◌then◌else◌, u32_max,
}
use materios_intent_settleme.Settlement.Types.{Claim, Signature}
use materios_intent_settleme.Settlement.State.{Runtime, State}
use materios_intent_settleme.Settlement.Settle.{
  SettleBatchEntry, settle_entry, settle_entries, settle_batch_atomic, hydrate, check_distinct,
  claim_ids,
}
use materios_intent_settleme.Settlement.Coverage.{
  total_owed, IsIndex, total_owed-put, owed-le, listed, put-IsIndex,
}

abbrev pub Pair : Type 0
Pair = SettleBatchEntry × Claim

abbrev pub paid : SettleBatchEntry → Claim → Claim
paid e c = record c {
  is_settled = true;
  settled_direct = e.settled_direct;
  cardano_tx_hash = e.cardano_tx_hash;
}

-- The claim is the stored one of the entry, and still open.
abbrev pub IsDue : (ℕ → Option Claim) → Pair → Type 0
IsDue claims p = (claims p.0.claim_id ≡ some p.1) × (p.1.is_settled ≡ false)

abbrev pub pair_ids : List Pair → List ℕ
pair_ids [] = []
pair_ids ((e, _) ∷ rest) = e.claim_id ∷ pair_ids rest

abbrev pub entries_of : List Pair → List SettleBatchEntry
entries_of [] = []
entries_of ((e, _) ∷ rest) = e ∷ entries_of rest

hydrate_sound :
    (entries : List SettleBatchEntry) (s : State) (pairs : List Pair)
    → hydrate entries s ≡ ok pairs
    → (entries_of pairs ≡ entries)
      × All (IsDue s.claims) pairs
      × (pair_ids pairs ≡ claim_ids entries)
unfolding hydrate
hydrate_sound [] s [] h = (refl, tt, refl)
hydrate_sound [] s (p ∷ pairs) h = cc
hydrate_sound (e ∷ rest) s pairs h = elim (Option-cases (s.claims e.claim_id)) [
  | inl missing ↦ ground arith
  | inr (c, found) ↦ elim (Result-cases (hydrate rest s)) [
    | inl (x, failed) ↦ ground arith
    | inr (tail, hydrated) ↦
        let ih = hydrate_sound rest s tail hydrated in
        let whole : (e, c) ∷ tail ≡ pairs = ground arith in
        rw (← whole)
          (ap (λ r. e ∷ r) ih.0, ((found, ground arith), ih.1), ap (λ r. e.claim_id ∷ r) ih.2)
  ]
]

pub check_distinct_sound : (ids : List ℕ) → check_distinct ids ≡ ok tt → Distinct ids
unfolding check_distinct
check_distinct_sound [] h = tt
check_distinct_sound (id ∷ ids) h = (ground arith, check_distinct_sound ids (ground arith))

-- A write to another claim leaves a due claim due.
IsDue-put :
    (claims : ℕ → Option Claim) (id : ℕ) (c : Option Claim) (pairs : List Pair)
    → contains (pair_ids pairs) id ≡ false
    → All (IsDue claims) pairs
    → All (IsDue (put claims id c)) pairs
IsDue-put claims id c [] new due = tt
IsDue-put claims id c ((e, x) ∷ rest) new due =
    ((ground (arith, due.0.0), due.0.1), IsDue-put claims id c rest (ground arith) due.1)

-- What the loop keeps: the claims not yet reached are due, and those that are settled are worth
-- the running total.
pub record LoopInv (ids : List ℕ) (s : State) (total : ℕ) : Type 0 where
  pub index : IsIndex s.claims ids
  pub backed : total_owed s.claims ids + total ≡ s.pool.outstanding_coverage_ada
  pub bounded : s.pool.outstanding_coverage_ada ≤ u64_max
  pub paired : (id : ℕ) → is_some (s.claims id) ≡ is_some (s.vouchers id)

-- The running total does not saturate: a due claim is part of the coverage.
due_adds :
    (ids : List ℕ) (s : State) (total : ℕ) (e : SettleBatchEntry) (c : Claim)
    → LoopInv ids s total
    → IsDue s.claims (e, c)
    → sat_add u64_max total c.amount_ada ≡ total + c.amount_ada
due_adds ids s total e c inv due = ground (
  arith,
  owed-le s.claims e.claim_id ids (listed e.claim_id inv.index due.0),
  inv.backed,
  inv.bounded,
  due.0,
  due.1,
)

pub settle_entry-LoopInv :
    (ids : List ℕ) (s : State) (total : ℕ) (e : SettleBatchEntry) (c : Claim)
    → LoopInv ids s total
    → IsDue s.claims (e, c)
    → LoopInv ids
        (settle_entry e.claim_id c e.cardano_tx_hash e.settled_direct s)
        (sat_add u64_max total c.amount_ada)
unfolding settle_entry
settle_entry-LoopInv ids s total e c inv due =
    let old = listed e.claim_id inv.index due.0 in
    let moved = total_owed-put s.claims e.claim_id (some (paid e c)) ids inv.index.distinct old in
    let exact = due_adds ids s total e c inv due in
    record {
      index = put-IsIndex s.claims e.claim_id (paid e c) ids inv.index old;
      backed = rw exact (ground (arith, moved, inv.backed, due.0, due.1));
      bounded = inv.bounded;
      paired = λ j. ground (arith, inv.paired j, due.0);
    }

-- The loop writes no claim but those of its entries.
pub settle_entries-others :
    (pairs : List Pair) (total direct : ℕ) (s : State) (id : ℕ)
    → contains (pair_ids pairs) id ≡ false
    → (settle_entries pairs total direct s).0.claims id ≡ s.claims id
unfolding settle_entries
settle_entries-others [] total direct s id h = refl
settle_entries-others ((e, c) ∷ rest) total direct s id h =
    settle_entries-others rest _ _ (settle_entry e.claim_id c e.cardano_tx_hash e.settled_direct s)
      id (ground arith)
    ∙ ground arith

abbrev pub amounts : List Pair → ℕ
amounts [] = 0
amounts ((_, c) ∷ rest) = c.amount_ada + amounts rest

-- What the loop has done to the claims of its entries.
abbrev pub ArePaid : (ℕ → Option Claim) → List Pair → Type 0
ArePaid claims = All (λ p. claims p.0.claim_id ≡ some (paid p.0 p.1))

pub record IsLooped (ids : List ℕ) (pairs : List Pair) (total : ℕ) (s : State) (r : State × ℕ × ℕ)
    : Type 0 where
  pub kept : LoopInv ids r.0 r.1
  pub same_pool : r.0.pool ≡ s.pool
  pub all_paid : ArePaid r.0.claims pairs
  pub summed : r.1 ≡ total + amounts pairs

pub settle_entries-IsLooped :
    (ids : List ℕ) (pairs : List Pair) (total direct : ℕ) (s : State)
    → Distinct (pair_ids pairs)
    → All (IsDue s.claims) pairs
    → LoopInv ids s total
    → IsLooped ids pairs total s (settle_entries pairs total direct s)
unfolding settle_entries
settle_entries-IsLooped ids [] total direct s d due inv = record {
  kept = inv;
  same_pool = refl;
  all_paid = tt;
  summed = ground arith;
}
settle_entries-IsLooped ids ((e, c) ∷ rest) total direct s d due inv =
    let next = settle_entry e.claim_id c e.cardano_tx_hash e.settled_direct s in
    let kept = settle_entry-LoopInv ids s total e c inv due.0 in
    let grown = sat_add u64_max total c.amount_ada in
    let direct' = if e.settled_direct then sat_add u32_max direct 1 else direct in
    let ih =
      settle_entries-IsLooped ids rest grown direct' next d.1
        (IsDue-put s.claims e.claim_id (some (paid e c)) rest d.0 due.1) kept in
    record {
      kept = ih.kept;
      same_pool = ih.same_pool;
      all_paid = (
        settle_entries-others rest grown direct' next e.claim_id d.0 ∙ ground arith,
        ih.all_paid,
      );
      summed = omega (arith, ih.summed, due_adds ids s total e c inv due.0);
    }

abbrev pub loop_of : List Pair → State → State × ℕ × ℕ
loop_of pairs s = settle_entries pairs 0 0 s

-- What a batch that succeeds has done.
pub record IsBatchSettled (entries : List SettleBatchEntry) (s s' : State) : Type 0 where
  pub pairs : List Pair
  pub entries_kept : entries_of pairs ≡ entries
  pub was_due : All (IsDue s.claims) pairs
  pub ids_distinct : Distinct (pair_ids pairs)
  pub claims_looped : s'.claims ≡ (loop_of pairs s).0.claims
  pub vouchers_looped : s'.vouchers ≡ (loop_of pairs s).0.vouchers
  pub coverage_paid :
      s'.pool.outstanding_coverage_ada
      ≡ (loop_of pairs s).0.pool.outstanding_coverage_ada - (loop_of pairs s).1
  pub nav_paid :
      s'.pool.total_nav_ada ≡ (loop_of pairs s).0.pool.total_nav_ada - (loop_of pairs s).1

pub settle_batch_atomic-IsBatchSettled :
    (rt : Runtime) (who : ℕ) (entries : List SettleBatchEntry) (signatures : List Signature)
    (s s' : State)
    → settle_batch_atomic rt who entries signatures s ≡ ok s'
    → IsBatchSettled entries s s'
unfolding settle_batch_atomic
settle_batch_atomic-IsBatchSettled rt who entries signatures s s' h =
    elim (Result-cases (hydrate entries s)) [
      | inl (x, failed) ↦ ground arith
      | inr (pairs, e) ↦
          let sound = hydrate_sound entries s pairs e in
          let distinct = check_distinct_sound (claim_ids entries) (ground arith) in
          record {
            pairs = pairs;
            entries_kept = sound.0;
            was_due = sound.1;
            ids_distinct = rw sound.2 distinct;
            claims_looped = ground arith;
            vouchers_looped = ground arith;
            coverage_paid = ground arith;
            nav_paid = ground arith;
          }
    ]
