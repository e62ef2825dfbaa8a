-- ===== src/Settlement/Payloads/Injective.antt =====
-- The bodies of the signed digests determine their fields, so that a signature over one action is a
-- signature over no other.
use native.Mathlib.Nat.{pow-suc}
use materios_intent_settleme.Common.{
  ℕ, zero, suc, ◌/◌, ◌%◌, ◌^◌, ◌<◌, ◌≡◌, refl, Bool, List, [], ◌∷◌, ◌++◌, length, length-append,
  as_bytes, to_le_bytes, arith,
}
use materios_intent_settleme.Settlement.Payloads.{
  settle_claim_body, request_voucher_body, credit_deposit_body,
}

module _ {ℓ} {A : Type ℓ} where
  -- Two concatenations with first parts of one length agree part by part.
  pub append-injective :
      (xs ys us vs : List A) → length xs ≡ length ys → xs ++ us ≡ ys ++ vs → (xs ≡ ys) × (us ≡ vs)
  append-injective [] [] us vs l e = (refl, e)
  append-injective [] (y ∷ ys) us vs l e = absurd (omega arith)
  append-injective (x ∷ xs) [] us vs l e = absurd (omega arith)
  append-injective (x ∷ xs) (y ∷ ys) us vs l e =
      let rest = append-injective xs ys us vs (omega arith) (cc) in
      let first : x ≡ y = cc in (rw (first, rest.0) refl, rest.1)

pub length-as_bytes : (k n : ℕ) → length (as_bytes k n) ≡ k
length-as_bytes zero n = refl
length-as_bytes (suc k) n =
    omega
      (arith, length-append {0} (as_bytes k (n / 256)) (n % 256 ∷ []), length-as_bytes k (n / 256))

pub length-to_le_bytes : (k n : ℕ) → length (to_le_bytes k n) ≡ k
length-to_le_bytes zero n = refl
length-to_le_bytes (suc k) n = omega (arith, length-to_le_bytes k (n / 256))

high_digits : (k n : ℕ) → n < 256 ^ suc k → n / 256 < 256 ^ k
high_digits k n h = omega (arith, pow-suc 256 k)

-- A number below 256^k is known from its k bytes, in either order.
pub to_le_bytes-injective :
    (k n m : ℕ) → n < 256 ^ k → m < 256 ^ k → to_le_bytes k n ≡ to_le_bytes k m → n ≡ m
to_le_bytes-injective zero n m hn hm e = omega arith
to_le_bytes-injective (suc k) n m hn hm e =
    let tails =
      to_le_bytes-injective k (n / 256) (m / 256) (high_digits k n hn) (high_digits k m hm) (cc) in
    let heads : n % 256 ≡ m % 256 = cc in omega (arith, tails, heads)

pub as_bytes-injective :
    (k n m : ℕ) → n < 256 ^ k → m < 256 ^ k → as_bytes k n ≡ as_bytes k m → n ≡ m
as_bytes-injective zero n m hn hm e = omega arith
as_bytes-injective (suc k) n m hn hm e =
    let parts =
      append-injective (as_bytes k (n / 256)) (as_bytes k (m / 256)) (n % 256 ∷ []) (m % 256 ∷ [])
        (omega (arith, length-as_bytes k (n / 256), length-as_bytes k (m / 256))) e in
    let highs =
      as_bytes-injective k (n / 256) (m / 256) (high_digits k n hn) (high_digits k m hm) parts.0 in
    let lows : n % 256 ≡ m % 256 = cc parts.1 in omega (arith, highs, lows)

-- A hash or key of 32 bytes, given by its number.
abbrev pub IsHash : ℕ → Type 0
IsHash h = h < 256 ^ 32

-- Two byte strings that begin with 32-byte values begin with the same value.
hash_first :
    (a b : ℕ) (us vs : List ℕ)
    → IsHash a
    → IsHash b
    → as_bytes 32 a ++ us ≡ as_bytes 32 b ++ vs
    → (a ≡ b) × (us ≡ vs)
hash_first a b us vs ha hb e =
    let parts =
      append-injective (as_bytes 32 a) (as_bytes 32 b) us vs
        (omega (arith, length-as_bytes 32 a, length-as_bytes 32 b)) e in
    (as_bytes-injective 32 a b ha hb parts.0, parts.1)

-- The signed bytes of a settlement name the chain, the claim, the transaction and the flag: equal
-- bytes come from equal ones, each id being 32 bytes.
pub settle_claim_body-injective :
    (chain chain' claim claim' tx tx' : ℕ) (direct direct' : Bool)
    → IsHash chain
    → IsHash chain'
    → IsHash claim
    → IsHash claim'
    → IsHash tx
    → IsHash tx'
    → settle_claim_body chain claim tx direct ≡ settle_claim_body chain' claim' tx' direct'
    → (chain ≡ chain') × (claim ≡ claim') × (tx ≡ tx') × (direct ≡ direct')
unfolding settle_claim_body
settle_claim_body-injective chain chain' claim claim' tx tx' direct direct' h h' k k' t t' e =
    let c = hash_first chain chain' _ _ h h' e in
    let d = hash_first claim claim' _ _ k k' c.1 in
    let x = hash_first tx tx' _ _ t t' d.1 in (c.0, d.0, x.0, ground (arith, x.1))

-- The signed bytes of a mint name the chain, the claim, the intent and the two digests: equal bytes
-- come from equal ones, each being 32 bytes.
pub request_voucher_body-injective :
    (chain chain' claim claim' intent intent' digest digest' proof proof' : ℕ)
    → IsHash chain × IsHash chain'
    → IsHash claim × IsHash claim'
    → IsHash intent × IsHash intent'
    → IsHash digest × IsHash digest'
    → IsHash proof × IsHash proof'
    → request_voucher_body chain claim intent digest proof
      ≡ request_voucher_body chain' claim' intent' digest' proof'
    → (chain ≡ chain')
      × (claim ≡ claim')
      × (intent ≡ intent')
      × (digest ≡ digest')
      × (proof ≡ proof')
unfolding request_voucher_body
request_voucher_body-injective chain chain' claim claim' intent intent' digest digest' proof proof'
      h k i d p e =
    let a = hash_first chain chain' _ _ h.0 h.1 e in
    let b = hash_first claim claim' _ _ k.0 k.1 a.1 in
    let c = hash_first intent intent' _ _ i.0 i.1 b.1 in
    let f = hash_first digest digest' _ _ d.0 d.1 c.1 in
    (a.0, b.0, c.0, f.0, as_bytes-injective 32 proof proof' p.0 p.1 f.1)

-- The signed bytes of a deposit name the chain, the target, the amount and the transaction: equal
-- bytes come from equal ones, the amount being 8 bytes and the others 32.
pub credit_deposit_body-injective :
    (chain chain' : ℕ) (target target' : List ℕ) (amount amount' tx tx' : ℕ)
    → IsHash chain × IsHash chain'
    → (length target ≡ 32) × (length target' ≡ 32)
    → (amount < 256 ^ 8) × (amount' < 256 ^ 8)
    → IsHash tx × IsHash tx'
    → credit_deposit_body chain target amount tx ≡ credit_deposit_body chain' target' amount' tx'
    → (chain ≡ chain') × (target ≡ target') × (amount ≡ amount') × (tx ≡ tx')
unfolding credit_deposit_body
credit_deposit_body-injective chain chain' target target' amount amount' tx tx' h l b t e =
    let a = hash_first chain chain' _ _ h.0 h.1 e in
    let c = append-injective target target' _ _ (omega (arith, l.0, l.1)) a.1 in
    let d =
      append-injective (to_le_bytes 8 amount) (to_le_bytes 8 amount') _ _
        (omega (arith, length-to_le_bytes 8 amount, length-to_le_bytes 8 amount')) c.1 in
    (
      a.0,
      c.0,
      to_le_bytes-injective 8 amount amount' b.0 b.1 d.0,
      as_bytes-injective 32 tx tx' t.0 t.1 d.1,
    )
