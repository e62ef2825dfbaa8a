-- ===== src/Settlement/Payloads/Address.antt =====
-- Type-0 addresses: split from 57 bytes and laid out as 80 bytes of CBOR
-- (pallets/intent-settlement/src/voucher_canonicalize.rs).
use materios_intent_settleme.Common.{
  ℕ, zero, suc, ◌≡◌, refl, ap, ◌∙◌, List, [], ◌∷◌, ◌++◌, length, take, drop, length-append, arith,
  ok,
}
use materios_intent_settleme.Settlement.Payloads.{
  build_type0_address_cbor, split_type0_address_bytes,
}
use materios_intent_settleme.Settlement.Payloads.Injective.{append-injective}

module _ {ℓ} {A : Type ℓ} where
  take-length : (n : ℕ) (xs ys : List A) → length xs ≡ n → take n (xs ++ ys) ≡ xs
  take-length zero [] ys l = refl
  take-length zero (x ∷ xs) ys l = absurd (omega arith)
  take-length (suc n) [] ys l = absurd (omega arith)
  take-length (suc n) (x ∷ xs) ys l = ap (λ r. x ∷ r) (take-length n xs ys (omega arith))

  drop-length : (n : ℕ) (xs ys : List A) → length xs ≡ n → drop n (xs ++ ys) ≡ ys
  drop-length zero [] ys l = refl
  drop-length zero (x ∷ xs) ys l = absurd (omega arith)
  drop-length (suc n) [] ys l = absurd (omega arith)
  drop-length (suc n) (x ∷ xs) ys l = drop-length n xs ys (omega arith)

  take-all : (n : ℕ) (xs : List A) → length xs ≡ n → take n xs ≡ xs
  take-all zero [] l = refl
  take-all zero (x ∷ xs) l = absurd (omega arith)
  take-all (suc n) [] l = absurd (omega arith)
  take-all (suc n) (x ∷ xs) l = ap (λ r. x ∷ r) (take-all n xs (omega arith))

-- An address that is the header byte 1 and two hashes of 28 bytes is split into these hashes.
pub split_type0_address_bytes-append :
    (payment stake : List ℕ)
    → length payment ≡ 28
    → length stake ≡ 28
    → split_type0_address_bytes (1 ∷ (payment ++ stake)) ≡ ok (payment, stake)
unfolding split_type0_address_bytes
split_type0_address_bytes-append payment stake lp ls =
    let size : length (payment ++ stake) ≡ 56 =
      omega (arith, length-append {0} payment stake, lp, ls) in
    let front : take 28 (payment ++ stake) ≡ payment = take-length 28 payment stake lp in
    let back : take 28 (drop 28 (payment ++ stake)) ≡ stake =
      ap (take 28) (drop-length 28 payment stake lp) ∙ take-all 28 stake ls in
    ground (arith, size, front, back)

-- The CBOR of an address, whose two hashes have 28 bytes each, determines both of them, and has 80
-- bytes.
pub build_type0_address_cbor-injective :
    (payment payment' stake stake' : List ℕ)
    → (length payment ≡ 28) × (length payment' ≡ 28)
    → (length stake ≡ 28) × (length stake' ≡ 28)
    → build_type0_address_cbor payment stake ≡ build_type0_address_cbor payment' stake'
    → (payment ≡ payment')
      × (stake ≡ stake')
      × (length (build_type0_address_cbor payment stake) ≡ 80)
unfolding build_type0_address_cbor
build_type0_address_cbor-injective payment payment' stake stake' lp ls e =
    let middle : List ℕ =
      0xff ∷ 0xd8 ∷ 0x79 ∷ 0x9f ∷ 0xd8 ∷ 0x79 ∷ 0x9f ∷ 0xd8 ∷ 0x79 ∷ 0x9f ∷ 0x58 ∷ 0x1c ∷ [] in
    let close : List ℕ = 0xff ∷ 0xff ∷ 0xff ∷ 0xff ∷ [] in
    let tails : payment ++ (middle ++ (stake ++ close))
        ≡ payment' ++ (middle ++ (stake' ++ close)) =
      cc in
    let a = append-injective payment payment' _ _ (omega (arith, lp.0, lp.1)) tails in
    let inner : stake ++ close ≡ stake' ++ close = cc a.1 in
    let b = append-injective stake stake' _ _ (omega (arith, ls.0, ls.1)) inner in
    (
      a.0,
      b.0,
      omega (
        arith,
        length-append {0} payment (middle ++ (stake ++ close)),
        length-append {0} stake close,
        lp.0,
        ls.0,
      ),
    )
