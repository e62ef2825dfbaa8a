-- ===== src/Oracle/Bundles.antt =====
-- One attestor counts once in a slot's bundle.
use materios_intent_settleme.Common.{
  ℕ, ◌≡◌, refl, inl, inr, Bool, true, false, Option, none, List, [], ◌∷◌, ◌++◌, put, ok, arith, leb,
  ◌==◌, contains, contains-snoc, length, is_some, Distinct, Distinct-snoc, Bool-cases, ◌&&◌, not,
  subst,
}
use materios_intent_settleme.Oracle.{
  Runtime, State, PriceObservation, pubkeys, submit_price, push_observation, cross_threshold,
  aggregate, clear_submitted,
}

-- What the storage holds of one pair and slot: the keys of the bundle, the marks, the decimals.
pub record IsSlot (bundle : List PriceObservation) (marks : ℕ → Bool) (decimals : Option ℕ)
    : Type 0 where
  pub distinct : Distinct (pubkeys bundle)
  pub marked : (k : ℕ) → marks k ≡ contains (pubkeys bundle) k
  pub recorded : is_some decimals ≡ (leb 1 (length bundle))

pub record SlotsInv (s : State) : Type 0 where
  pub slots :
      (pair_id slot : ℕ)
      → IsSlot
          (s.pending_attestations pair_id slot)
          (s.attestor_submitted pair_id slot)
          (s.bundle_decimals pair_id slot)

pubkeys-snoc :
    (bundle : List PriceObservation) (o : PriceObservation)
    → pubkeys (bundle ++ o ∷ []) ≡ pubkeys bundle ++ o.pubkey ∷ []
pubkeys-snoc [] o = refl
pubkeys-snoc (x ∷ rest) o = ground (arith, pubkeys-snoc rest o)

nonempty-snoc :
    (bundle : List PriceObservation) (o : PriceObservation)
    → leb 1 (length (bundle ++ o ∷ [])) ≡ true
nonempty-snoc [] o = refl
nonempty-snoc (x ∷ rest) o = ground arith

-- A new key joins a slot.
push-IsSlot :
    (bundle : List PriceObservation) (marks : ℕ → Bool) (old new : Option ℕ) (o : PriceObservation)
    → IsSlot bundle marks old
    → marks o.pubkey ≡ false
    → is_some new ≡ true
    → IsSlot (bundle ++ o ∷ []) (put marks o.pubkey true) new
push-IsSlot bundle marks old new o slot fresh decimals = record {
  distinct = rw (pubkeys-snoc bundle o) (
      Distinct-snoc (pubkeys bundle) o.pubkey slot.distinct (ground (arith, slot.marked o.pubkey)));
  marked = λ k.
      rw (pubkeys-snoc bundle o, contains-snoc (pubkeys bundle) o.pubkey k)
        (ground (arith, slot.marked k));
  recorded = rw (nonempty-snoc bundle o) decimals;
}

-- Clearing removes the marks of the bundle's keys, and no other.
clear_submitted-eq :
    (bundle : List PriceObservation) (marks : ℕ → Bool) (k : ℕ)
    → clear_submitted bundle marks k ≡ (marks k && not (contains (pubkeys bundle) k))
unfolding clear_submitted
clear_submitted-eq [] marks k = ground arith
clear_submitted-eq (o ∷ rest) marks k =
    ground (arith, clear_submitted-eq rest (put marks o.pubkey false) k)

clear-IsSlot :
    (bundle : List PriceObservation) (marks : ℕ → Bool) (decimals : Option ℕ)
    → IsSlot bundle marks decimals
    → IsSlot [] (clear_submitted bundle marks) none
clear-IsSlot bundle marks decimals slot = record {
  distinct = tt;
  marked = λ k. ground (arith, clear_submitted-eq bundle marks k, slot.marked k);
  recorded = refl;
}

-- What holds at one pair and slot, and everywhere else, holds everywhere.
everywhere :
    (P : ℕ → ℕ → Type 0) (a b : ℕ)
    → P a b
    → ((i j : ℕ) → (i == a && j == b) ≡ false → P i j)
    → (i j : ℕ) → P i j
everywhere P a b here elsewhere i j = elim (Bool-cases (i == a && j == b)) [
  | inl e ↦
      let first : a ≡ i = ground arith in
      let second : b ≡ j = ground arith in subst (λ q. P q j) first (subst (P a) second here)
  | inr e ↦ elsewhere i j e
]

push_observation-SlotsInv :
    (pair_id slot decimals : ℕ) (o : PriceObservation) (s : State)
    → SlotsInv s
    → s.attestor_submitted pair_id slot o.pubkey ≡ false
    → SlotsInv (push_observation pair_id slot decimals o s)
unfolding push_observation
push_observation-SlotsInv pair_id slot decimals o s inv fresh =
    let t = push_observation pair_id slot decimals o s in
    record {
      slots =
          everywhere _ pair_id slot
            (rw (here_pending, here_submitted)
              (push-IsSlot (s.pending_attestations pair_id slot) (s.attestor_submitted pair_id slot)
                (s.bundle_decimals pair_id slot) (t.bundle_decimals pair_id slot) o
                (inv.slots pair_id slot) fresh (ground arith)))
            λ i j other.
              let pending : t.pending_attestations i j ≡ s.pending_attestations i j =
                ground arith in
              let submitted : t.attestor_submitted i j ≡ s.attestor_submitted i j = ground arith in
              let recorded : t.bundle_decimals i j ≡ s.bundle_decimals i j = ground arith in
              rw (pending, submitted, recorded) (inv.slots i j);
    }
  where
    here_pending :
        (push_observation pair_id slot decimals o s).pending_attestations pair_id slot
        ≡ s.pending_attestations pair_id slot ++ o ∷ []
    here_pending = ground arith

    here_submitted :
        (push_observation pair_id slot decimals o s).attestor_submitted pair_id slot
        ≡ put (s.attestor_submitted pair_id slot) o.pubkey true
    here_submitted = ground arith

aggregate-SlotsInv :
    (pair_id slot decimals : ℕ) (s : State)
    → SlotsInv s
    → SlotsInv (aggregate pair_id slot decimals (s.pending_attestations pair_id slot) s)
unfolding aggregate
aggregate-SlotsInv pair_id slot decimals s inv =
    let bundle = s.pending_attestations pair_id slot in
    let t = aggregate pair_id slot decimals bundle s in
    let pending : t.pending_attestations pair_id slot ≡ [] = ground arith in
    let submitted : t.attestor_submitted pair_id slot
        ≡ clear_submitted bundle (s.attestor_submitted pair_id slot) =
      ground arith in
    let recorded : t.bundle_decimals pair_id slot ≡ none = ground arith in
    record {
      slots =
          everywhere _ pair_id slot
            (rw (pending, submitted, recorded)
              (clear-IsSlot bundle _ (s.bundle_decimals pair_id slot) (inv.slots pair_id slot)))
            λ i j other.
              let pending : t.pending_attestations i j ≡ s.pending_attestations i j =
                ground arith in
              let submitted : t.attestor_submitted i j ≡ s.attestor_submitted i j = ground arith in
              let recorded : t.bundle_decimals i j ≡ s.bundle_decimals i j = ground arith in
              rw (pending, submitted, recorded) (inv.slots i j);
    }

cross_threshold-SlotsInv :
    (rt : Runtime) (pair_id slot decimals pubkey : ℕ) (s : State)
    → SlotsInv s
    → SlotsInv (cross_threshold rt pair_id slot decimals pubkey s)
unfolding cross_threshold
cross_threshold-SlotsInv rt pair_id slot decimals pubkey s inv =
    elim (Bool-cases
      (leb rt.min_attestor_threshold (length (s.pending_attestations pair_id slot)))) [
        | inl enough ↦ rw enough (aggregate-SlotsInv pair_id slot decimals s inv)
        | inr short ↦ rw short (record { slots = inv.slots })
      ]

-- A submission that succeeds keeps every slot well-formed: the keys of its observations are distinct,
-- a key is marked as submitted exactly when it has an observation there, and decimals are recorded
-- exactly when there is an observation.
pub submit_price-SlotsInv :
    (rt : Runtime) (who pair_id price decimals slot pubkey sig : ℕ) (s s' : State)
    → SlotsInv s
    → submit_price rt who pair_id price decimals slot pubkey sig s ≡ ok s'
    → SlotsInv s'
unfolding submit_price
submit_price-SlotsInv rt who pair_id price decimals slot pubkey sig s s' inv h =
    let o : PriceObservation = record { pubkey = pubkey; price = price; sig = sig } in
    let result : s'
        ≡ cross_threshold rt pair_id slot decimals pubkey
            (push_observation pair_id slot decimals o s) =
      ground arith in
    rw result (
      cross_threshold-SlotsInv rt pair_id slot decimals pubkey _
        (push_observation-SlotsInv pair_id slot decimals o s inv (ground arith)))
