-- ===== src/Tests/Ledger.antt =====
-- A currency that meets the laws of `Currency`: free and reserved balances.
use Prim.Native.Nat.{min}
use materios_intent_settleme.Common.{
  ℕ, ◌+◌, ◌-◌, ◌≡◌, Option, none, some, ◌==◌, leb, put, if◌then◌else◌, arith, refl,
}
use materios_intent_settleme.Settlement.Currency.{Currency}

pub record Ledger : Type 0 where
  pub free : ℕ → ℕ
  pub reserved : ℕ → ℕ

abbrev reserve : ℕ → ℕ → Ledger → Option Ledger
reserve who amount l =
    if leb amount (l.free who)
    then some (record {
      free = put l.free who (l.free who - amount);
      reserved = put l.reserved who (l.reserved who + amount);
    })
    else none

-- From the reserve of one account to the free balance of another.
abbrev move : ℕ → ℕ → ℕ → Ledger → ℕ × Ledger
move from to amount l = (
  amount - l.reserved from,
  record {
    free = put l.free to (l.free to + min amount (l.reserved from));
    reserved = put l.reserved from (l.reserved from - amount);
  },
)

pub reserve_lem :
    (who amount : ℕ) (l l' : Ledger)
    → reserve who amount l ≡ some l'
    → (a : ℕ) → l'.reserved a ≡ l.reserved a + (if a == who then amount else 0)
reserve_lem who amount l l' h a = ground arith

pub move_lem :
    (from to amount : ℕ) (l : Ledger) (a : ℕ)
    → (move from to amount l).1.reserved a ≡ l.reserved a - (if a == from then amount else 0)
move_lem from to amount l a = ground arith

pub move_free :
    (from to amount : ℕ) (l : Ledger) (a : ℕ)
    → (move from to amount l).1.free a
      ≡ l.free a + (if a == to then amount - (move from to amount l).0 else 0)
move_free from to amount l a = ground arith

abbrev pub currency : Currency Ledger
currency = record {
  reserved_balance_named = λ a l. l.reserved a;
  free_balance = λ a l. l.free a;
  reserve_named = reserve;
  unreserve_named = λ who amount l. move who who amount l;
  repatriate_reserved_named = λ from to amount l. some (move from to amount l);
  reserve_named_lem = reserve_lem;
  unreserve_named_missing = λ who amount l. refl;
  unreserve_named_lem = λ who amount l a. move_lem who who amount l a;
  repatriate_reserved_named_unpaid = λ from to amount l r h. ground arith;
  repatriate_reserved_named_lem = λ from to amount l r h a.
      let same : move from to amount l ≡ r = ground arith in
      rw (← same) (move_lem from to amount l a);
  repatriate_reserved_named_paid = λ from to amount l r h a.
      let same : move from to amount l ≡ r = ground arith in
      rw (← same) (move_free from to amount l a);
}
