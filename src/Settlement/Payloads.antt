-- ===== src/Settlement/Payloads.antt =====
-- The byte strings that the committee signs and that ids are hashes of (the `*_payload` helpers of
-- pallets/intent-settlement/src/lib.rs, `compute_*` of types.rs, voucher_canonicalize.rs). Each
-- digest is the hash of a domain tag and a body; the body is a function of its own.
use materios_intent_settleme.Common.{
  ℕ, ◌-◌, Bool, true, false, List, [], ◌∷◌, ◌++◌, ◌==◌, not, if◌then◌else◌, ensure, Result, ok, err,
  ◌>>◌, ◌>>=◌, length, take, drop, replicate, as_bytes, to_le_bytes, get_elem?, Option, some, none,
}
use materios_intent_settleme.Settlement.Types.{
  IntentKind, BatchFairnessProof, Voucher, CardanoIdentity, Error,
}
use materios_intent_settleme.Settlement.State.{Runtime}
pub mod Attested
pub mod Batched
pub mod Injective
pub mod BatchInjective
pub mod Address

-- The four bytes of a domain tag.
abbrev pub Tag : Type 0
Tag = List ℕ

abbrev pub tag_intt : Tag
tag_intt = b'I' ∷ b'N' ∷ b'T' ∷ b'T' ∷ []

abbrev pub tag_vchr : Tag
tag_vchr = b'V' ∷ b'C' ∷ b'H' ∷ b'R' ∷ []

abbrev pub tag_bfpr : Tag
tag_bfpr = b'B' ∷ b'F' ∷ b'P' ∷ b'R' ∷ []

abbrev pub tag_crdp : Tag
tag_crdp = b'C' ∷ b'R' ∷ b'D' ∷ b'P' ∷ []

abbrev pub tag_stcl : Tag
tag_stcl = b'S' ∷ b'T' ∷ b'C' ∷ b'L' ∷ []

abbrev pub tag_rvch : Tag
tag_rvch = b'R' ∷ b'V' ∷ b'C' ∷ b'H' ∷ []

abbrev pub tag_inta : Tag
tag_inta = b'I' ∷ b'N' ∷ b'T' ∷ b'A' ∷ []

unfoldable pub domain_hash : Runtime → Tag → List ℕ → ℕ
domain_hash rt tag body = rt.blake2_256 (tag ++ body)

-- The buffer of 32 zeros, its front overwritten by the encoding's first 32 bytes.
unfoldable pub account_to_bytes : Runtime → ℕ → List ℕ
account_to_bytes rt account =
    let bytes = take 32 (rt.encode_account account) in bytes ++ replicate (32 - length bytes) 0

unfoldable pub attest_intent_body : ℕ → ℕ → List ℕ
attest_intent_body chain_id intent_id = as_bytes 32 chain_id ++ as_bytes 32 intent_id

unfoldable pub credit_deposit_body : ℕ → List ℕ → ℕ → ℕ → List ℕ
credit_deposit_body chain_id target_bytes amount_ada cardano_tx_hash =
    as_bytes 32 chain_id
    ++ (target_bytes ++ (to_le_bytes 8 amount_ada ++ as_bytes 32 cardano_tx_hash))

unfoldable pub settle_claim_body : ℕ → ℕ → ℕ → Bool → List ℕ
settle_claim_body chain_id claim_id cardano_tx_hash settled_direct =
    as_bytes 32 chain_id
    ++ (as_bytes 32 claim_id
        ++ (as_bytes 32 cardano_tx_hash ++ (if settled_direct then 1 else 0) ∷ []))

unfoldable pub request_voucher_body : ℕ → ℕ → ℕ → ℕ → ℕ → List ℕ
request_voucher_body chain_id claim_id intent_id voucher_digest bfpr_digest =
    as_bytes 32 chain_id
    ++ (as_bytes 32 claim_id
        ++ (as_bytes 32 intent_id ++ (as_bytes 32 voucher_digest ++ as_bytes 32 bfpr_digest)))

unfoldable pub intent_id_body : Runtime → List ℕ → ℕ → IntentKind → ℕ → List ℕ
intent_id_body rt submitter_bytes nonce kind submitted_block =
    submitter_bytes
    ++ (to_le_bytes 8 nonce ++ (rt.encode_kind kind ++ to_le_bytes 4 submitted_block))

unfoldable pub attest_intent_payload : Runtime → ℕ → ℕ → ℕ
attest_intent_payload rt chain_id intent_id =
    domain_hash rt tag_inta (attest_intent_body chain_id intent_id)

unfoldable pub credit_deposit_payload : Runtime → ℕ → List ℕ → ℕ → ℕ → ℕ
credit_deposit_payload rt chain_id target_bytes amount_ada cardano_tx_hash =
    domain_hash rt tag_crdp (credit_deposit_body chain_id target_bytes amount_ada cardano_tx_hash)

unfoldable pub settle_claim_payload : Runtime → ℕ → ℕ → ℕ → Bool → ℕ
settle_claim_payload rt chain_id claim_id cardano_tx_hash settled_direct =
    domain_hash rt tag_stcl (settle_claim_body chain_id claim_id cardano_tx_hash settled_direct)

unfoldable pub request_voucher_payload : Runtime → ℕ → ℕ → ℕ → ℕ → ℕ → ℕ
request_voucher_payload rt chain_id claim_id intent_id voucher_digest bfpr_digest =
    domain_hash rt tag_rvch
      (request_voucher_body chain_id claim_id intent_id voucher_digest bfpr_digest)

unfoldable pub compute_intent_id : Runtime → List ℕ → ℕ → IntentKind → ℕ → ℕ
compute_intent_id rt submitter_bytes nonce kind submitted_block =
    domain_hash rt tag_intt (intent_id_body rt submitter_bytes nonce kind submitted_block)

unfoldable pub compute_fairness_proof_digest : Runtime → BatchFairnessProof → ℕ
compute_fairness_proof_digest rt proof = domain_hash rt tag_bfpr (rt.encode_proof proof)

-- `build_type0_address_cbor`, its 80 bytes in order.
unfoldable pub build_type0_address_cbor : List ℕ → List ℕ → List ℕ
build_type0_address_cbor payment_hash stake_hash =
    0xd8 ∷ 0x79 ∷ 0x9f ∷ 0xd8 ∷ 0x79 ∷ 0x9f ∷ 0x58 ∷ 0x1c ∷ []
    ++ (payment_hash
        ++ (0xff ∷ 0xd8 ∷ 0x79 ∷ 0x9f ∷ 0xd8 ∷ 0x79 ∷ 0x9f ∷ 0xd8 ∷ 0x79 ∷ 0x9f ∷ 0x58 ∷ 0x1c ∷ []
            ++ (stake_hash ++ 0xff ∷ 0xff ∷ 0xff ∷ 0xff ∷ [])))

pub data AddressDecodeError : Type 0 where
  wrong_length unsupported_address_type : AddressDecodeError

abbrev is_byte : ℕ → Option ℕ → Bool
is_byte b none = false
is_byte b (some c) = c == b

unfoldable pub split_type0_address_bytes : List ℕ → Result AddressDecodeError (List ℕ × List ℕ)
split_type0_address_bytes raw = do
  ensure (length raw == 57) AddressDecodeError.wrong_length
  ensure (is_byte 1 (get_elem? raw 0)) AddressDecodeError.unsupported_address_type
  ok (take 28 (drop 1 raw), take 28 (drop 29 raw))

-- `map_err`, where the new error does not depend on the old one.
abbrev pub map_err : {E F A : Type 0} → Result E A → F → Result F A
map_err (ok a) e = ok a
map_err (err _) e = err e

-- `beneficiary_cbor_for`
unfoldable pub beneficiary_cbor_for : List ℕ → Result Error (List ℕ)
unfolding split_type0_address_bytes
beneficiary_cbor_for addr = do
  hashes ← map_err (split_type0_address_bytes addr) Error.invalid_beneficiary_address
  ok (build_type0_address_cbor hashes.0 hashes.1)

-- `canonical_voucher_body_with_address`, on the chain's identity and the voucher's fields.
unfoldable pub canonical_voucher_body : Runtime → CardanoIdentity → Voucher → List ℕ → List ℕ
canonical_voucher_body rt cardano v address_cbor =
    as_bytes 32 rt.chain_id
    ++ (to_le_bytes 4 cardano.network_magic
        ++ (as_bytes 28 cardano.aegis_policy_v1_script_hash
            ++ (to_le_bytes 4 rt.settlement_version
                ++ (as_bytes 32 v.claim_id
                    ++ (as_bytes 32 v.policy_id
                        ++ (address_cbor
                            ++ (to_le_bytes 8 v.amount_ada
                                ++ (as_bytes 32 v.batch_fairness_proof_digest
                                    ++ (to_le_bytes 4 v.issued_block
                                        ++ to_le_bytes 8 v.expiry_slot_cardano)))))))))

-- `Pallet::voucher_digest`
unfoldable pub voucher_digest : Runtime → CardanoIdentity → Voucher → Result Error ℕ
voucher_digest rt cardano v = do
  cbor ← beneficiary_cbor_for v.beneficiary_cardano_addr
  ok (domain_hash rt tag_vchr (canonical_voucher_body rt cardano v cbor))
