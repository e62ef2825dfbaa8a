-- ===== src/Common/Tests.antt =====
-- Boolean tests on the native numbers, branching, and total maps for on-chain storage.
use Prim.Native.Nat.{ℕ, compare, Ordering}
use mathlib.Core.Path.{◌≡◌, refl, sym, subst}
use mathlib.Core.Logic.{◌↔◌, ◌⊎◌, inl, inr}
use mathlib.Core.Bool.{Bool, true, false, ◌&&◌}
use mathlib.Core.Option.{Option, none, some}
use native.Mathlib.Omega.{arith}

abbrev pub ltb : ℕ → ℕ → Bool
ltb a b = elim (compare a b) [ Ordering.lt ↦ true | _ ↦ false ]

abbrev pub leb : ℕ → ℕ → Bool
leb a b = elim (compare a b) [ Ordering.gt ↦ false | _ ↦ true ]

infix 50 ◌==◌
abbrev pub ◌==◌ : ℕ → ℕ → Bool
a == b = elim (compare a b) [ Ordering.eq ↦ true | _ ↦ false ]

infix 1 if◌then◌else◌
abbrev pub if◌then◌else◌ {ℓ} : {A : Type ℓ} → Bool → A → A → A
if true then x else y = x
if false then x else y = y

pub ==_iff : (a b : ℕ) → ((a == b) ≡ true) ↔ (a ≡ b)
==_iff a b = (λ h. ground arith, λ h. ground arith)

pub Bool-cases : (b : Bool) → (b ≡ true) ⊎ (b ≡ false)
Bool-cases true = inl refl
Bool-cases false = inr refl

pub Option-cases {ℓ} : {A : Type ℓ} (o : Option A) → (o ≡ none) ⊎ ((a : A) × (o ≡ some a))
Option-cases none = inl refl
Option-cases (some a) = inr (a, refl)

abbrev pub is_some {ℓ} : {A : Type ℓ} → Option A → Bool
is_some none = false
is_some (some _) = true

-- A storage map as the function from its keys to what `get` returns: `Option V` for an
-- `OptionQuery`, `V` with its default for a `ValueQuery`.
abbrev pub put {ℓ} : {V : Type ℓ} → (ℕ → V) → ℕ → V → ℕ → V
put m k v j = if j == k then v else m j

-- The same for a map whose key is a pair, and for a double map.
abbrev pub put₂ {ℓ} : {V : Type ℓ} → (ℕ → ℕ → V) → ℕ → ℕ → V → ℕ → ℕ → V
put₂ m a b v i j = if i == a && j == b then v else m i j

-- What holds of every entry, and of the value put, holds of every entry afterwards.
pub put-elim {ℓ κ} :
    {V : Type ℓ} (P : ℕ → V → Type κ) (m : ℕ → V) (k : ℕ) (v : V)
    → ((j : ℕ) → P j (m j))
    → P k v
    → (j : ℕ) → P j (put m k v j)
put-elim P m k v all new j = elim (Bool-cases (j == k)) [
  | inl e ↦ rw e (subst (λ i. P i v) (sym ((==_iff j k).0 e)) new)
  | inr e ↦ rw e (all j)
]
