-- ===== src/Settlement/Submit/Effects.antt =====
-- What a successful submission does to the storage.
use materios_intent_settleme.Common.{
  ℕ, ◌+◌, ◌≤◌, ◌≡◌, refl, ◌≢◌, inl, inr, none, some, [], ◌∷◌, ◌++◌, put, ok, length, sat_add,
  u64_max, arith, ap, sym, ◌∙◌, length-append, Result-cases,
}
use materios_intent_settleme.Settlement.Types.{IntentKind}
use materios_intent_settleme.Settlement.State.{Runtime, State}
use materios_intent_settleme.Settlement.Submit.{
  reserve_credit, record_intent, do_submit_intent, new_intent, next_intent_id,
}

-- The credit that an intent holds from its submission on.
abbrev pub held : IntentKind → ℕ
held (IntentKind.buy_policy _ _ _ premium_ada _) = premium_ada
held (IntentKind.refund_credit amount_ada) = amount_ada
held _ = 0

-- What a submission of `kind` by `who` that returns `id` and `s'` has done to `s`.
pub record IsSubmitted (rt : Runtime) (who : ℕ) (kind : IntentKind) (s : State) (id : ℕ)
    (s' : State) : Type 0 where
  pub id_of_fields : id ≡ next_intent_id rt who kind s
  pub id_was_free : s.intents id ≡ none
  pub stored : s'.intents ≡ put s.intents id (some (new_intent rt who kind s))
  pub debited : s'.credits who + held kind ≡ s.credits who
  pub others_kept : (a : ℕ) → a ≢ who → s'.credits a ≡ s.credits a
  pub nonce_counted : s'.nonces ≡ put s.nonces who (sat_add u64_max (s.nonces who) 1)
  pub indexed : s'.pending_batches ≡ s.pending_batches ++ id ∷ []
  pub index_bounded : length s'.pending_batches ≤ rt.max_pending_batches
  pub claims_kept : s'.claims ≡ s.claims
  pub pool_kept : s'.pool ≡ s.pool

record IsReserved (who : ℕ) (kind : IntentKind) (s s' : State) : Type 0 where
  debited : s'.credits who + held kind ≡ s.credits who
  others_kept : (a : ℕ) → a ≢ who → s'.credits a ≡ s.credits a
  rest_kept : s' ≡ record s { credits = s'.credits }

reserve_credit-IsReserved :
    (who : ℕ) (kind : IntentKind) (s s' : State)
    → reserve_credit who kind s ≡ ok s'
    → IsReserved who kind s s'
unfolding reserve_credit
reserve_credit-IsReserved who (IntentKind.buy_policy p k t premium b) s s' h = record {
  debited = ground arith;
  others_kept = λ a ne. ground arith;
  rest_kept = ground arith;
}
reserve_credit-IsReserved who kind s s' h = record {
  debited = ground arith;
  others_kept = λ a ne. ground arith;
  rest_kept = ground arith;
}

-- A reservation changes credits alone, which no field of the new intent reads.
next_intent_id-credits :
    (rt : Runtime) (who : ℕ) (kind : IntentKind) (s : State) (credits : ℕ → ℕ)
    → (next_intent_id rt who kind (record s { credits = credits }) ≡ next_intent_id rt who kind s)
      × (new_intent rt who kind (record s { credits = credits }) ≡ new_intent rt who kind s)
unfolding next_intent_id new_intent
next_intent_id-credits rt who kind s credits = (refl, refl)

-- What recording an intent after a reservation has done.
record IsRecorded (rt : Runtime) (who : ℕ) (kind : IntentKind) (s : State) (credits : ℕ → ℕ)
    (id : ℕ) (s' : State) : Type 0 where
  id_of_fields : id ≡ next_intent_id rt who kind s
  id_was_free : s.intents id ≡ none
  stored : s'.intents ≡ put s.intents id (some (new_intent rt who kind s))
  nonce_counted : s'.nonces ≡ put s.nonces who (sat_add u64_max (s.nonces who) 1)
  indexed : s'.pending_batches ≡ s.pending_batches ++ id ∷ []
  room : length s.pending_batches + 1 ≤ rt.max_pending_batches
  claims_kept : s'.claims ≡ s.claims
  pool_kept : s'.pool ≡ s.pool
  credits_kept : s'.credits ≡ credits

record_intent-IsRecorded :
    (rt : Runtime) (who : ℕ) (kind : IntentKind) (s : State) (credits : ℕ → ℕ) (id : ℕ) (s' : State)
    → record_intent rt who kind (record s { credits = credits }) ≡ ok (id, s')
    → IsRecorded rt who kind s credits id s'
unfolding record_intent
record_intent-IsRecorded rt who kind s credits id s' h =
    let same = next_intent_id-credits rt who kind s credits in
    record {
      id_of_fields = ground arith;
      id_was_free = ground arith;
      stored = ground arith;
      nonce_counted = ground arith;
      indexed = ground arith;
      room = ground arith;
      claims_kept = ground arith;
      pool_kept = ground arith;
      credits_kept = ground arith;
    }

-- A submission that succeeds takes from the submitter's credit exactly what the intent holds and
-- leaves all other credits alone, stores a pending intent under an id that was free and is the
-- hash of its fields, counts the nonce up, adds the id to the bounded index of open intents, and
-- changes no claim and nothing of the pool.
pub do_submit_intent-IsSubmitted :
    (rt : Runtime) (who : ℕ) (kind : IntentKind) (s : State) (id : ℕ) (s' : State)
    → do_submit_intent rt who kind s ≡ ok (id, s')
    → IsSubmitted rt who kind s id s'
unfolding do_submit_intent
do_submit_intent-IsSubmitted rt who kind s id s' h =
    elim (Result-cases (reserve_credit who kind s)) [
      | inl (e, failed) ↦ ground arith
      | inr (t, e) ↦
          let reserved = reserve_credit-IsReserved who kind s t e in
          let after : record_intent rt who kind (record s { credits = t.credits }) ≡ ok (id, s') =
            ap (record_intent rt who kind) (sym reserved.rest_kept) ∙ (rw e at h) in
          let done = record_intent-IsRecorded rt who kind s t.credits id s' after in
          record {
            id_of_fields = done.id_of_fields;
            id_was_free = done.id_was_free;
            stored = done.stored;
            debited = rw done.credits_kept reserved.debited;
            others_kept = λ a ne. rw done.credits_kept (reserved.others_kept a ne);
            nonce_counted = done.nonce_counted;
            indexed = done.indexed;
            index_bounded =
                rw done.indexed
                  (omega (arith, done.room, length-append {0} s.pending_batches (id ∷ [])));
            claims_kept = done.claims_kept;
            pool_kept = done.pool_kept;
          }
    ]
