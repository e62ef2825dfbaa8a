-- ===== src/Settlement/Threshold.antt =====
-- The M-of-N gate (`verify_threshold_signatures` of pallets/intent-settlement/src/lib.rs) and the
-- knob that sets its floor (`set_min_signer_threshold`). The count of scanned entries, which only
-- the weight refund reads, is not kept.
use materios_intent_settleme.Common.{
  ℕ, Bool, List, [], ◌∷◌, ◌++◌, ◌==◌, leb, not, if◌then◌else◌, ensure, ok_or, Result, ok, ◌>>=◌,
  ◌>>◌, length, any, contains,
}
use Prim.Native.Nat.{max}
use materios_intent_settleme.Settlement.Types.{Signature, Error}
use materios_intent_settleme.Settlement.State.{Runtime, State}
pub mod Quorum

unfoldable pub effective_threshold : Runtime → State → ℕ
effective_threshold rt s =
    max
      (if s.min_signer_threshold == 0
        then rt.default_min_signer_threshold
        else s.min_signer_threshold)
      1

-- The first loop: no signer twice, every signer a member.
unfoldable pub scan_signers : Runtime → List ℕ → List Signature → Result Error (Unit {0})
scan_signers rt seen [] = ok tt
scan_signers rt seen ((pubkey, _) ∷ rest) =
    let next = scan_signers rt (seen ++ pubkey ∷ []) rest in
    do
      ensure (not (contains seen pubkey)) Error.duplicate_signer
      account ← ok_or (rt.account_of_pubkey pubkey) Error.signer_not_committee_member
      ensure (rt.is_member account) Error.signer_not_committee_member
      next

-- The second loop.
unfoldable pub verify_all : Runtime → ℕ → List Signature → Result Error (Unit {0})
verify_all rt payload [] = ok tt
verify_all rt payload ((pubkey, sig) ∷ rest) =
    let next = verify_all rt payload rest in
    do ensure (rt.verify pubkey sig payload) Error.invalid_signature; next

unfoldable pub verify_threshold_signatures :
    Runtime → State → ℕ → ℕ → List Signature → Result Error (Unit {0})
unfolding effective_threshold scan_signers verify_all
verify_threshold_signatures rt s payload who signatures = do
  ensure (leb (length signatures) rt.max_committee) Error.too_many_signatures
  ensure (leb (effective_threshold rt s) (length signatures)) Error.insufficient_signatures
  ensure (any (λ e. e.0 == rt.pubkey_of who) signatures) Error.insufficient_signatures
  scan_signers rt [] signatures
  verify_all rt payload signatures

-- `set_min_signer_threshold`; `is_root` is the result of `ensure_root`.
unfoldable pub set_min_signer_threshold : Runtime → Bool → ℕ → State → Result Error State
set_min_signer_threshold rt is_root new_threshold s = do
  ensure is_root Error.bad_origin
  let v = if new_threshold == 0 then rt.default_min_signer_threshold else new_threshold
  ensure (leb v rt.threshold) Error.threshold_above_committee
  ok (record s { min_signer_threshold = v })
