-- ===== src/Settlement/Cardano.antt =====
-- The Cardano network a chain settles against (`cardano_ids`, `bind_aegis_policy_v1` of
-- pallets/intent-settlement/src/lib.rs, `CardanoIdentity::check` of types.rs).
use materios_intent_settleme.Common.{
  ℕ, ◌≡◌, Bool, true, false, some, ◌==◌, ◌||◌, not, ensure, ok_or, Result, ok, ◌>>=◌, ◌>>◌, arith,
  Option-cases, inl, inr, ◌↔◌, ◌≢◌,
}
use materios_intent_settleme.Settlement.Types.{
  CardanoIdentity, Error, Event, cardano_mainnet_network_magic,
  cardano_mainnet_shelley_genesis_hash,
}
use materios_intent_settleme.Settlement.State.{State, deposit_event}

unfoldable pub cardano_ids : State → Result Error CardanoIdentity
cardano_ids s = do
  ids ← ok_or s.cardano_ids Error.cardano_ids_missing
  ensure
      (not (ids.network_magic == cardano_mainnet_network_magic)
        || not (ids.aegis_policy_v1_script_hash == 0))
      Error.aegis_policy_v1_unbound
  ok ids

-- `is_root` is the result of `ensure_root`.
unfoldable pub bind_aegis_policy_v1 : Bool → ℕ → State → Result Error State
bind_aegis_policy_v1 is_root script_hash s = do
  ensure is_root Error.bad_origin
  ensure (not (script_hash == 0)) Error.aegis_policy_v1_unbound
  ids ← ok_or s.cardano_ids Error.cardano_ids_missing
  ensure (ids.aegis_policy_v1_script_hash == 0) Error.aegis_policy_v1_already_bound
  ok (
      deposit_event (Event.aegis_policy_v1_bound script_hash) (record s {
        cardano_ids = some (record ids { aegis_policy_v1_script_hash = script_hash });
      }))

pub data IdentityFault : Type 0 where
  zero_magic zero_genesis mixed_mainnet : IdentityFault

-- `==` of two Booleans.
abbrev same : Bool → Bool → Bool
same true b = b
same false b = not b

unfoldable pub check : CardanoIdentity → Result IdentityFault (Unit {0})
check ids = do
  ensure (not (ids.network_magic == 0)) IdentityFault.zero_magic
  ensure (not (ids.mainchain_genesis_hash == 0)) IdentityFault.zero_genesis
  ensure
      (same (ids.network_magic == cardano_mainnet_network_magic)
        (ids.mainchain_genesis_hash == cardano_mainnet_shelley_genesis_hash))
      IdentityFault.mixed_mainnet

-- A binding comes from root with a hash other than 0, and sets it in an identity without one.
pub bind_aegis_policy_v1_effect :
    (is_root : Bool) (hash : ℕ) (s s' : State)
    → bind_aegis_policy_v1 is_root hash s ≡ ok s'
    → (is_root ≡ true)
      × (hash ≢ 0)
      × (ids : CardanoIdentity) × (s.cardano_ids ≡ some ids)
      × (ids.aegis_policy_v1_script_hash ≡ 0)
      × (s'.cardano_ids ≡ some (record ids { aegis_policy_v1_script_hash = hash }))
unfolding bind_aegis_policy_v1
bind_aegis_policy_v1_effect is_root hash s s' h = elim (Option-cases s.cardano_ids) [
  | inl e ↦ ground arith
  | inr (ids, e) ↦ (ground arith, λ zero. ground arith, ids, e, ground arith, ground arith)
]

-- An identity passes the check exactly when its magic and genesis hash are not zero and name
-- Cardano mainnet both or neither.
pub check_iff :
    (ids : CardanoIdentity)
    → (check ids ≡ ok tt) ↔ (
        (ids.network_magic ≢ 0)
        × (ids.mainchain_genesis_hash ≢ 0)
        × ((ids.network_magic ≡ cardano_mainnet_network_magic)
            ↔ (ids.mainchain_genesis_hash ≡ cardano_mainnet_shelley_genesis_hash)))
unfolding check
check_iff ids = (
  λ h. (λ e. ground arith, λ e. ground arith, (λ e. ground arith, λ e. ground arith)),
  λ h. ground (arith, h.0, h.1, h.2.0, h.2.1),
)
