-- ===== src/Prelude/Float.antt =====
-- `f64`. The language has no floats, so the type and its operations are an instance argument of
-- every definition that computes with them; `IsIeee` states what the proofs need of IEEE 754
-- double precision arithmetic: it orders all values but NaN, and rounds monotonically.
pub mod Fixed
use Prim.Native.Nat.{ℕ, ◌≤◌, ◌<◌, Ordering}
use mathlib.Core.Path.{◌≡◌, refl}
use mathlib.Core.Bool.{Bool, true, false, ◌&&◌, ◌||◌, not}
use mathlib.Core.Option.{Option, none, some}
use trust_system.Prelude.Tests.{if◌then◌else◌}
use trust_system.Prelude.Order.{IsTotalOrder}
use trust_system.Prelude.Words.{u64_max}

pub record Floats : Type 1 where
  pub Carrier : Type 0
  pub less : Carrier → Carrier → Bool
  pub less_eq : Carrier → Carrier → Bool
  pub finite : Carrier → Bool
  pub plus : Carrier → Carrier → Carrier
  pub minus : Carrier → Carrier → Carrier
  pub times : Carrier → Carrier → Carrier
  pub over : Carrier → Carrier → Carrier
  pub from_nat : ℕ → Carrier
  pub decimal : ℕ → ℕ → Carrier
  pub infinite : Carrier
  pub greatest : Carrier
  pub root : Carrier → Carrier
  pub total : Carrier → Carrier → Ordering
  pub rounded : Carrier → ℕ
  pub truncated : Carrier → ℕ

module _ ⦃f : Floats⦄ where
  abbrev pub Num : Type 0
  Num = f.Carrier

  infix 50 ◌<ᶠ◌ ◌≤ᶠ◌ ◌==ᶠ◌
  infixl 65 ◌+ᶠ◌ ◌-ᶠ◌
  infixl 70 ◌*ᶠ◌ ◌/ᶠ◌
  -- `a < b`, `a <= b` and `a == b`: false where an operand is NaN.
  abbrev pub ◌<ᶠ◌ : Num → Num → Bool
  a <ᶠ b = f.less a b

  abbrev pub ◌≤ᶠ◌ : Num → Num → Bool
  a ≤ᶠ b = f.less_eq a b

  abbrev pub ◌==ᶠ◌ : Num → Num → Bool
  a ==ᶠ b = f.less_eq a b && f.less_eq b a

  abbrev pub ◌+ᶠ◌ : Num → Num → Num
  a +ᶠ b = f.plus a b

  abbrev pub ◌-ᶠ◌ : Num → Num → Num
  a -ᶠ b = f.minus a b

  abbrev pub ◌*ᶠ◌ : Num → Num → Num
  a *ᶠ b = f.times a b

  abbrev pub ◌/ᶠ◌ : Num → Num → Num
  a /ᶠ b = f.over a b

  -- `n as f64`, and the literal `n / d`.
  abbrev pub of_nat : ℕ → Num
  of_nat n = f.from_nat n

  abbrev pub lit : ℕ → ℕ → Num
  lit n d = f.decimal n d

  abbrev pub zero_f : Num
  zero_f = f.decimal 0 1

  abbrev pub one_f : Num
  one_f = f.decimal 1 1

  abbrev pub infinity : Num
  infinity = f.infinite

  abbrev pub is_finite : Num → Bool
  is_finite a = f.finite a

  abbrev pub is_nan : Num → Bool
  is_nan a = not (f.less_eq a a)

  -- Neither finite nor NaN.
  abbrev pub is_infinite : Num → Bool
  is_infinite a = not (f.finite a) && f.less_eq a a

  abbrev pub total_cmp : Num → Num → Ordering
  total_cmp a b = f.total a b

  -- `a.partial_cmp(&b)`.
  abbrev pub partial_cmp : Num → Num → Option Ordering
  partial_cmp a b =
      if a <ᶠ b
      then some Ordering.lt
      else if a ==ᶠ b
      then some Ordering.eq
      else if b <ᶠ a
      then some Ordering.gt
      else none

  -- `x.clamp(lo, hi)`, `(lo..=hi).contains(&x)`, `a.min(b)` and `a.max(b)`.
  abbrev pub clamp : Num → Num → Num → Num
  clamp lo hi x = let y = (if x <ᶠ lo then lo else x) in if hi <ᶠ y then hi else y

  abbrev pub within : Num → Num → Num → Bool
  within lo hi x = lo ≤ᶠ x && x ≤ᶠ hi

  abbrev pub min_f : Num → Num → Num
  min_f a b = if is_nan a then b else if is_nan b then a else if b <ᶠ a then b else a

  abbrev pub max_f : Num → Num → Num
  max_f a b = if is_nan a then b else if is_nan b then a else if a <ᶠ b then b else a

  abbrev pub round : Num → ℕ
  round a = f.rounded a

  -- `a as u64`, `a.sqrt()`, `a.abs()` and `f64::MAX`.
  abbrev pub to_u64 : Num → ℕ
  to_u64 a = f.truncated a

  abbrev pub sqrt : Num → Num
  sqrt a = f.root a

  abbrev pub abs : Num → Num
  abs a = if a ≤ᶠ zero_f then zero_f -ᶠ a else a

  abbrev pub max_float : Num
  max_float = f.greatest

  -- Documented behaviour of IEEE 754 comparison and addition. A premise `0 ≤ a` excludes NaN.
  pub record IsIeee : Type 0 where
    pub le_trans : (a b c : Num) → (a ≤ᶠ b) ≡ true → (b ≤ᶠ c) ≡ true → (a ≤ᶠ c) ≡ true
    pub le_of_lt : (a b : Num) → (a <ᶠ b) ≡ true → (a ≤ᶠ b) ≡ true
    pub not_le_of_lt : (a b : Num) → (a <ᶠ b) ≡ true → (b ≤ᶠ a) ≡ false
    pub le_of_not_lt :
        (a b : Num)
        → (zero_f ≤ᶠ a) ≡ true
        → (zero_f ≤ᶠ b) ≡ true
        → (a <ᶠ b) ≡ false
        → (b ≤ᶠ a) ≡ true
    pub add_mono :
        (a b c : Num)
        → (zero_f ≤ᶠ a) ≡ true
        → (zero_f ≤ᶠ c) ≡ true
        → (a ≤ᶠ b) ≡ true
        → (a +ᶠ c ≤ᶠ b +ᶠ c) ≡ true
    pub le-add : (a c : Num) → (zero_f ≤ᶠ a) ≡ true → (zero_f ≤ᶠ c) ≡ true → (a ≤ᶠ a +ᶠ c) ≡ true
    pub zero_le_zero : (zero_f ≤ᶠ zero_f) ≡ true
    pub le_infinity : (a : Num) → (zero_f ≤ᶠ a) ≡ true → (a ≤ᶠ infinity) ≡ true
    pub zero_le_one : (zero_f ≤ᶠ one_f) ≡ true
    pub finite_number : (a : Num) → is_finite a ≡ true → (a ≤ᶠ a) ≡ true
    pub lt_numbers : (a b : Num) → (a <ᶠ b) ≡ true → ((a ≤ᶠ a) ≡ true) × ((b ≤ᶠ b) ≡ true)
    pub finite_one : is_finite one_f ≡ true
    pub le_numbers :
        (a b : Num) → (a ≤ᶠ a) ≡ true → (b ≤ᶠ b) ≡ true → (a <ᶠ b) ≡ false → (b ≤ᶠ a) ≡ true
    pub mul_nonneg :
        (a b : Num)
        → (zero_f ≤ᶠ a) ≡ true
        → (zero_f ≤ᶠ b) ≡ true
        → is_finite a ≡ true
        → is_finite b ≡ true
        → (zero_f ≤ᶠ a *ᶠ b) ≡ true
    pub finite_below :
        (a b : Num)
        → (zero_f ≤ᶠ a) ≡ true
        → (a ≤ᶠ b) ≡ true
        → is_finite b ≡ true
        → is_finite a ≡ true
    pub div_nonneg :
        (a b : Num)
        → (zero_f ≤ᶠ a) ≡ true
        → is_finite b ≡ true
        → (b ≤ᶠ zero_f) ≡ false
        → (zero_f ≤ᶠ a /ᶠ b) ≡ true
    pub sub_nonneg :
        (a b : Num)
        → (zero_f ≤ᶠ b) ≡ true
        → (b ≤ᶠ a) ≡ true
        → is_finite a ≡ true
        → (zero_f ≤ᶠ a -ᶠ b) ≡ true
    pub sub_nan : (a b : Num) → is_nan b ≡ true → is_nan (a -ᶠ b) ≡ true
    pub add_nan : (a b : Num) → is_nan b ≡ true → is_nan (a +ᶠ b) ≡ true
    pub of_nat_nonneg : (n : ℕ) → (zero_f ≤ᶠ of_nat n) ≡ true
    pub of_nat_finite : (n : ℕ) → n ≤ u64_max → is_finite (of_nat n) ≡ true
    pub lit_nonneg : (n d : ℕ) → 0 < d → (zero_f ≤ᶠ lit n d) ≡ true
    pub lit_finite : (n : ℕ) → n ≤ u64_max → is_finite (lit n 1) ≡ true
    pub lit_positive : (n : ℕ) → 0 < n → (lit n 1 ≤ᶠ zero_f) ≡ false
    pub add-infinity : (a : Num) → is_finite (a +ᶠ infinity) ≡ false
    pub total_order : IsTotalOrder total_cmp
