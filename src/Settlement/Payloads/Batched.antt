-- ===== src/Settlement/Payloads/Batched.antt =====
-- The digests of the batched calls (`attest_batch_intents_payload`,
-- `request_batch_vouchers_payload`, `submit_batch_intents_payload` of
-- pallets/intent-settlement/src/lib.rs).
use materios_intent_settleme.Common.{ℕ, List, [], ◌∷◌, ◌++◌, length, as_bytes, to_le_bytes}
use materios_intent_settleme.Settlement.Types.{IntentKind}
use materios_intent_settleme.Settlement.State.{Runtime}
use materios_intent_settleme.Settlement.Payloads.{Tag, domain_hash}

abbrev tag_abin : Tag
tag_abin = b'A' ∷ b'B' ∷ b'I' ∷ b'N' ∷ []

abbrev tag_rvbn : Tag
tag_rvbn = b'R' ∷ b'V' ∷ b'B' ∷ b'N' ∷ []

abbrev tag_sbin : Tag
tag_sbin = b'S' ∷ b'B' ∷ b'I' ∷ b'N' ∷ []

abbrev ids_bytes : List ℕ → List ℕ
ids_bytes [] = []
ids_bytes (id ∷ rest) = as_bytes 32 id ++ ids_bytes rest

unfoldable pub attest_batch_intents_payload : Runtime → ℕ → List ℕ → ℕ
attest_batch_intents_payload rt chain_id intent_ids =
    domain_hash rt tag_abin
      (as_bytes 32 chain_id ++ (to_le_bytes 4 (length intent_ids) ++ ids_bytes intent_ids))

-- claim_id, intent_id, voucher digest, fairness proof digest
abbrev pub VoucherTuple : Type 0
VoucherTuple = ℕ × ℕ × ℕ × ℕ

abbrev tuples_bytes : List VoucherTuple → List ℕ
tuples_bytes [] = []
tuples_bytes ((claim_id, intent_id, voucher_d, bfpr_d) ∷ rest) =
    as_bytes 32 claim_id
    ++ (as_bytes 32 intent_id
        ++ (as_bytes 32 voucher_d ++ (as_bytes 32 bfpr_d ++ tuples_bytes rest)))

unfoldable pub request_batch_vouchers_payload : Runtime → ℕ → List VoucherTuple → ℕ
request_batch_vouchers_payload rt chain_id entries =
    domain_hash rt tag_rvbn
      (as_bytes 32 chain_id ++ (to_le_bytes 4 (length entries) ++ tuples_bytes entries))

abbrev kinds_bytes : Runtime → List IntentKind → List ℕ
kinds_bytes rt [] = []
kinds_bytes rt (kind ∷ rest) = rt.encode_kind kind ++ kinds_bytes rt rest

-- An entry of the batch is its kind.
unfoldable pub submit_batch_intents_payload : Runtime → ℕ → List IntentKind → ℕ
submit_batch_intents_payload rt chain_id entries =
    domain_hash rt tag_sbin
      (as_bytes 32 chain_id ++ (to_le_bytes 4 (length entries) ++ kinds_bytes rt entries))
