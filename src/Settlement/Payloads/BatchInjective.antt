-- ===== src/Settlement/Payloads/BatchInjective.antt =====
-- The bodies of the attested digests determine what is signed.

use materios_intent_settleme.Common.{
  ℕ, ◌^◌, ◌<◌, ◌≡◌, refl, Bool, List, [], ◌∷◌, ◌++◌, length, arith, All, as_bytes, to_le_bytes,
  if◌then◌else◌, ◌+◌, true, false, length-append,
}
use materios_intent_settleme.Settlement.Payloads.Attested.{
  BatchAttestEntryBytes, attest_entry_bytes, settle_claim_attested_body, attest_entries_bytes,
  attest_batch_settle_body,
}
use materios_intent_settleme.Settlement.Payloads.Injective.{
  append-injective, length-as_bytes, length-to_le_bytes, as_bytes-injective, IsHash,
  to_le_bytes-injective,
}

-- The widths of the fields.
pub record IsWellFormed (e : BatchAttestEntryBytes) : Type 0 where
  pub claim_id : IsHash e.claim_id
  pub voucher_digest : IsHash e.voucher_digest
  pub cardano_tx_hash : IsHash e.cardano_tx_hash
  pub beneficiary_hash : e.beneficiary_hash < 256 ^ 28
  pub amount_ada : e.amount_ada < 256 ^ 8
  pub depth : e.depth < 256 ^ 4
  pub slot : e.slot < 256 ^ 8
  pub mc_genesis : IsHash e.mc_genesis

-- Two byte strings that begin with integers of one width.
le_first :
    (k a b : ℕ) (us vs : List ℕ)
    → a < 256 ^ k
    → b < 256 ^ k
    → to_le_bytes k a ++ us ≡ to_le_bytes k b ++ vs
    → (a ≡ b) × (us ≡ vs)
le_first k a b us vs ha hb e =
    let parts =
      append-injective (to_le_bytes k a) (to_le_bytes k b) us vs
        (omega (arith, length-to_le_bytes k a, length-to_le_bytes k b)) e in
    (to_le_bytes-injective k a b ha hb parts.0, parts.1)

be_first :
    (k a b : ℕ) (us vs : List ℕ)
    → a < 256 ^ k
    → b < 256 ^ k
    → as_bytes k a ++ us ≡ as_bytes k b ++ vs
    → (a ≡ b) × (us ≡ vs)
be_first k a b us vs ha hb e =
    let parts =
      append-injective (as_bytes k a) (as_bytes k b) us vs
        (omega (arith, length-as_bytes k a, length-as_bytes k b)) e in
    (as_bytes-injective k a b ha hb parts.0, parts.1)

length-be : (k n : ℕ) (us : List ℕ) → length (as_bytes k n ++ us) ≡ k + length us
length-be k n us = omega (arith, length-append {0} (as_bytes k n) us, length-as_bytes k n)

length-le : (k n : ℕ) (us : List ℕ) → length (to_le_bytes k n ++ us) ≡ k + length us
length-le k n us = omega (arith, length-append {0} (to_le_bytes k n) us, length-to_le_bytes k n)

-- Every entry has 177 bytes.
length-attest_entry_bytes : (e : BatchAttestEntryBytes) → length (attest_entry_bytes e) ≡ 177
unfolding attest_entry_bytes
length-attest_entry_bytes e =
    let slots = to_le_bytes 8 e.slot ++ as_bytes 32 e.mc_genesis in
    let depths = to_le_bytes 4 e.depth ++ slots in
    let sums = to_le_bytes 8 e.amount_ada ++ depths in
    let payees = as_bytes 28 e.beneficiary_hash ++ sums in
    let flags = (if e.settled_direct then 1 else 0) ∷ payees in
    let txs = as_bytes 32 e.cardano_tx_hash ++ flags in
    let digests = as_bytes 32 e.voucher_digest ++ txs in
    omega (
      arith,
      length-be 32 e.claim_id digests,
      length-be 32 e.voucher_digest txs,
      length-be 32 e.cardano_tx_hash flags,
      length-be 28 e.beneficiary_hash sums,
      length-le 8 e.amount_ada depths,
      length-le 4 e.depth slots,
      length-le 8 e.slot (as_bytes 32 e.mc_genesis),
      length-as_bytes 32 e.mc_genesis,
    )

flag_first :
    (a b : Bool) (us vs : List ℕ)
    → (if a then 1 else 0) ∷ us ≡ (if b then 1 else 0) ∷ vs
    → (a ≡ b) × (us ≡ vs)
flag_first true true us vs e = (refl, cc)
flag_first false false us vs e = (refl, cc)
flag_first true false us vs e = cc
flag_first false true us vs e = cc

-- Equal bytes of an entry come from equal entries.
attest_entry_bytes-injective :
    (e f : BatchAttestEntryBytes)
    → IsWellFormed e
    → IsWellFormed f
    → attest_entry_bytes e ≡ attest_entry_bytes f
    → e ≡ f
unfolding attest_entry_bytes
attest_entry_bytes-injective e f x y h =
    let c = be_first 32 e.claim_id f.claim_id _ _ x.claim_id y.claim_id h in
    let v =
      be_first 32 e.voucher_digest f.voucher_digest _ _ x.voucher_digest y.voucher_digest c.1 in
    let t =
      be_first 32 e.cardano_tx_hash f.cardano_tx_hash _ _ x.cardano_tx_hash y.cardano_tx_hash v.1 in
    let m = flag_first e.settled_direct f.settled_direct _ _ t.1 in
    let b =
      be_first 28 e.beneficiary_hash f.beneficiary_hash _ _ x.beneficiary_hash y.beneficiary_hash
        m.1 in
    let a = le_first 8 e.amount_ada f.amount_ada _ _ x.amount_ada y.amount_ada b.1 in
    let d = le_first 4 e.depth f.depth _ _ x.depth y.depth a.1 in
    let s = le_first 8 e.slot f.slot _ _ x.slot y.slot d.1 in
    let g = as_bytes-injective 32 e.mc_genesis f.mc_genesis x.mc_genesis y.mc_genesis s.1 in cc

-- The signed bytes of a batch determine its list of settlements, in order.
attest_entries_bytes-injective :
    (es fs : List BatchAttestEntryBytes)
    → All IsWellFormed es
    → All IsWellFormed fs
    → length es ≡ length fs
    → attest_entries_bytes es ≡ attest_entries_bytes fs
    → es ≡ fs
unfolding attest_entries_bytes
attest_entries_bytes-injective [] [] x y n h = refl
attest_entries_bytes-injective [] (f ∷ fs) x y n h = absurd (omega arith)
attest_entries_bytes-injective (e ∷ es) [] x y n h = absurd (omega arith)
attest_entries_bytes-injective (e ∷ es) (f ∷ fs) x y n h =
    let parts =
      append-injective (attest_entry_bytes e) (attest_entry_bytes f) (attest_entries_bytes es)
        (attest_entries_bytes fs)
        (omega (arith, length-attest_entry_bytes e, length-attest_entry_bytes f)) h in
    let first = attest_entry_bytes-injective e f x.0 y.0 parts.0 in
    let rest = attest_entries_bytes-injective es fs x.1 y.1 (omega arith) parts.1 in
    rw (first, rest) refl

-- The signed bytes of a batch of settlements name the chain and the whole list of settlements in
-- order, each with its claim, voucher digest, transaction, mode, payment hash, amount, depth, slot
-- and mainchain genesis hash: equal bytes come from equal ones, where each field has its width and
-- the lists have fewer than 2^32 entries.
pub attest_batch_settle_body-injective :
    (chain chain' : ℕ) (es fs : List BatchAttestEntryBytes)
    → IsHash chain × IsHash chain'
    → All IsWellFormed es
    → All IsWellFormed fs
    → (length es < 256 ^ 4) × (length fs < 256 ^ 4)
    → attest_batch_settle_body chain es ≡ attest_batch_settle_body chain' fs
    → (chain ≡ chain') × (es ≡ fs)
unfolding attest_batch_settle_body
attest_batch_settle_body-injective chain chain' es fs c x y n h =
    let a = be_first 32 chain chain' _ _ c.0 c.1 h in
    let b = le_first 4 (length es) (length fs) _ _ n.0 n.1 a.1 in
    (a.0, attest_entries_bytes-injective es fs x y b.0 b.1)

-- The same of a single attested settlement.
pub settle_claim_attested_body-injective :
    (chain chain' : ℕ) (e f : BatchAttestEntryBytes)
    → IsHash chain × IsHash chain'
    → IsWellFormed e
    → IsWellFormed f
    → settle_claim_attested_body chain e ≡ settle_claim_attested_body chain' f
    → (chain ≡ chain') × (e ≡ f)
unfolding settle_claim_attested_body
settle_claim_attested_body-injective chain chain' e f c x y h =
    let a = be_first 32 chain chain' _ _ c.0 c.1 h in
    (a.0, attest_entry_bytes-injective e f x y a.1)
