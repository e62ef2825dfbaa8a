-- ===== src/Settlement/Expire/Sweep.antt =====
-- What an expiry gives back.
use materios_intent_settleme.Common.{
  ℕ, ◌+◌, ◌-◌, ◌≤◌, ◌≡◌, refl, ◌∙◌, true, false, List, [], ◌∷◌, Option, none, some, put, contains,
  Distinct, ok, arith, ◌==◌, if◌then◌else◌, u64_max, u32_max, ◌≢◌,
}
use Prim.Native.Nat.{min}
use materios_intent_settleme.Settlement.Types.{
  IntentKind, IntentStatus, Intent, is_pending_or_attested,
}
use materios_intent_settleme.Settlement.State.{Runtime, State}
use materios_intent_settleme.Settlement.Submit.{do_submit_intent, new_intent}
use materios_intent_settleme.Settlement.Submit.Effects.{do_submit_intent-IsSubmitted}
use materios_intent_settleme.Settlement.Expire.{expire_intent, expire_intents, on_initialize}

-- The sweep at a policy's TTL gives back exactly what its submission took. In any later state in which
-- the intent is as submitted, but for a status that is pending or attested, and in which the
-- submitter's credit with that amount fits in 64 bits, the sweep of the intent raises the credit by
-- what it fell by at the submission, leaves all other credits alone and expires the intent. The
-- other ways to expire a policy are not meant here.
pub buy_policy-expire :
    (rt : Runtime) (who product strike term premium : ℕ) (addr : List ℕ) (s s' t : State) (id : ℕ)
    (status : IntentStatus)
    → do_submit_intent rt who (IntentKind.buy_policy product strike term premium addr) s
      ≡ ok (id, s')
    → let i = new_intent rt who (IntentKind.buy_policy product strike term premium addr) s in
      t.intents id ≡ some (record i { status = status })
      → is_pending_or_attested status ≡ true
      → t.credits who + (s.credits who - s'.credits who) ≤ u64_max
      → let u = expire_intent id t in
        (u.credits who ≡ t.credits who + (s.credits who - s'.credits who))
        × ((a : ℕ) → a ≢ who → u.credits a ≡ t.credits a)
        × (u.intents id ≡ some (record i { status = IntentStatus.expired }))
unfolding expire_intent new_intent
buy_policy-expire rt who product strike term premium addr s s' t id status h found open_intent
      fits =
    let kind = IntentKind.buy_policy product strike term premium addr in
    let done = do_submit_intent-IsSubmitted rt who kind s id s' h in
    let taken : s.credits who - s'.credits who ≡ premium = ground (arith, done.debited) in
    rw (found, expire_intent) (ground (arith, taken, fits), λ a other. ground arith, ground arith)

-- The premium that an intent's expiry gives back to an account.
abbrev refund_of : ℕ → ℕ → IntentKind → ℕ
refund_of a submitter (IntentKind.buy_policy _ _ _ premium _) =
    if submitter == a then premium else 0
refund_of a submitter _ = 0

-- What the expiry of an id is worth to an account: the premium of a policy of its own that is
-- still pending or attested.
abbrev pub due_refund : ℕ → Option Intent → ℕ
due_refund a none = 0
due_refund a (some i) =
    if is_pending_or_attested i.status then refund_of a i.submitter i.kind else 0

abbrev pub due_refunds : ℕ → (ℕ → Option Intent) → List ℕ → ℕ
due_refunds a intents [] = 0
due_refunds a intents (id ∷ ids) = due_refund a (intents id) + due_refunds a intents ids

-- One expiry pays what it is worth.
expire_intent-credits :
    (a id : ℕ) (s : State)
    → s.credits a + due_refund a (s.intents id) ≤ u64_max
    → (expire_intent id s).credits a ≡ s.credits a + due_refund a (s.intents id)
unfolding expire_intent
expire_intent-credits a id s fits = ground arith

expire_intent-others :
    (id j : ℕ) (s : State) → j ≢ id → (expire_intent id s).intents j ≡ s.intents j
unfolding expire_intent
expire_intent-others id j s ne = ground arith

due_refunds-kept :
    (a id : ℕ) (ids : List ℕ) (s : State)
    → contains ids id ≡ false
    → due_refunds a (expire_intent id s).intents ids ≡ due_refunds a s.intents ids
due_refunds-kept a id [] s h = refl
due_refunds-kept a id (j ∷ ids) s h =
    let other : j ≢ id = ground arith in
    rw (expire_intent-others id j s other) (ground (arith, due_refunds-kept a id ids s))

expire_intents-credits :
    (a : ℕ) (ids : List ℕ) (s : State)
    → Distinct ids
    → s.credits a + due_refunds a s.intents ids ≤ u64_max
    → (expire_intents ids s).credits a ≡ s.credits a + due_refunds a s.intents ids
unfolding expire_intents
expire_intents-credits a [] s d fits = omega arith
expire_intents-credits a (id ∷ ids) s d fits =
    let one = expire_intent-credits a id s (omega arith) in
    let rest = due_refunds-kept a id ids s d.0 in
    expire_intents-credits a ids (expire_intent id s) d.1 (omega (arith, one, rest))
    ∙ omega (arith, one, rest)

-- The sweep at the start of a block whose number has 32 bits pays every account the premiums of its
-- policies that are due in that block's queue and still pending or attested, each once. The queue
-- is one that names no intent twice, and the account's credit with all of these fits in 64 bits.
pub on_initialize_refunds :
    (n a : ℕ) (s : State)
    → n ≤ u32_max
    → Distinct (s.expiry_queue n)
    → s.credits a + due_refunds a s.intents (s.expiry_queue n) ≤ u64_max
    → (on_initialize n s).credits a ≡ s.credits a + due_refunds a s.intents (s.expiry_queue n)
unfolding on_initialize
on_initialize_refunds n a s small d fits =
    let same : min n u32_max ≡ n = omega arith in
    rw (same, on_initialize)
      (expire_intents-credits a (s.expiry_queue n)
        (record s { expiry_queue = put s.expiry_queue n [] }) d fits)
