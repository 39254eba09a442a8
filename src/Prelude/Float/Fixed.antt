-- ===== src/Prelude/Float/Fixed.antt =====
-- Fixed-point numbers of six decimals with an infinity and a NaN: a stand-in for `f64` on which
-- the definitions run. It shows that `IsIeee` can hold.
use Prim.Native.Nat.{ℕ, zero, suc, ◌+◌, ◌-◌, ◌*◌, ◌/◌, compare, Ordering}
use mathlib.Core.Path.{refl}
use mathlib.Core.Bool.{Bool, true, false}
use native.Mathlib.Omega.{arith}
use trust_system.Prelude.Tests.{ltb, leb, ◌==◌, if◌then◌else◌}
use trust_system.Prelude.Float.{Floats, IsIeee}

pub data Decimal : Type 0 where
  fin : ℕ → Decimal
  inf nan : Decimal

abbrev scale : ℕ
scale = 1000000

pub less : Decimal → Decimal → Bool
less (fin a) (fin b) = ltb a b
less (fin a) inf = true
less _ _ = false

pub less_eq : Decimal → Decimal → Bool
less_eq (fin a) (fin b) = leb a b
less_eq (fin a) inf = true
less_eq inf inf = true
less_eq _ _ = false

pub finite : Decimal → Bool
finite (fin a) = true
finite _ = false

pub plus : Decimal → Decimal → Decimal
plus (fin a) (fin b) = fin (a + b)
plus (fin a) inf = inf
plus inf (fin b) = inf
plus inf inf = inf
plus _ _ = nan

pub minus : Decimal → Decimal → Decimal
minus (fin a) (fin b) = fin (a - b)
minus inf (fin b) = inf
minus _ _ = nan

pub times : Decimal → Decimal → Decimal
times (fin a) (fin b) = fin (a * b / scale)
times inf (fin b) = if b == 0 then nan else inf
times (fin a) inf = if a == 0 then nan else inf
times inf inf = inf
times _ _ = nan

pub over : Decimal → Decimal → Decimal
over (fin a) (fin b) = if b == 0 then (if a == 0 then nan else inf) else fin (a * scale / b)
over inf (fin b) = inf
over (fin a) inf = fin 0
over _ _ = nan

pub total : Decimal → Decimal → Ordering
total (fin a) (fin b) = compare a b
total (fin a) _ = Ordering.lt
total inf (fin b) = Ordering.gt
total inf inf = Ordering.eq
total inf nan = Ordering.lt
total nan nan = Ordering.eq
total nan _ = Ordering.gt

pub rounded : Decimal → ℕ
rounded (fin a) = (a + scale / 2) / scale
rounded _ = 0

pub truncated : Decimal → ℕ
truncated (fin a) = a / scale
truncated inf = 18446744073709551615
truncated nan = 0

-- The integer square root, by halving the interval `lo ..= hi` as often as the fuel says.
bisect : ℕ → ℕ → ℕ → ℕ → ℕ
bisect zero a lo hi = lo
bisect (suc n) a lo hi =
    let mid = (lo + hi + 1) / 2 in
    let fits = leb (mid * mid) a in
    bisect n a (if fits then mid else lo) (if fits then hi else mid - 1)

pub root : Decimal → Decimal
root (fin a) = fin (bisect 80 (a * scale) 0 (a + scale))
root d = d

instance abbrev pub decimals : Floats
decimals = record {
  Carrier = Decimal;
  less = less;
  less_eq = less_eq;
  finite = finite;
  plus = plus;
  minus = minus;
  times = times;
  over = over;
  from_nat = λ n. fin (n * scale);
  decimal = λ n d. fin (n * scale / d);
  infinite = inf;
  greatest = fin 18446744073709551615000000;
  root = root;
  total = total;
  rounded = rounded;
  truncated = truncated;
}

-- All operations of the stand-in, for the `unfolding` line of a test.
unfoldable pub arithmetic : Unit {0}
unfolding less less_eq finite plus minus times over total rounded truncated root
arithmetic = tt

pub decimals-IsIeee : IsIeee
unfolding arithmetic
decimals-IsIeee = record {
  le_trans = λ a b c p q. ground arith;
  le_of_lt = λ a b p. ground arith;
  not_le_of_lt = λ a b p. ground arith;
  le_of_not_lt = λ a b p q r. ground arith;
  add_mono = λ a b c p q r. ground arith;
  le-add = λ a c p q. ground arith;
  zero_le_zero = refl;
  le_infinity = λ a p. ground arith;
  zero_le_one = refl;
  finite_number = λ a h. ground arith;
  lt_numbers = λ a b p. ground arith;
  finite_one = refl;
  le_numbers = λ a b p q r. ground arith;
  mul_nonneg = λ a b p q r t. ground arith;
  finite_below = λ a b p q r. ground arith;
  div_nonneg = λ a b p q r. ground arith;
  sub_nonneg = λ a b p q r. ground arith;
  sub_nan = λ a b p. ground arith;
  add_nan = λ a b p. ground arith;
  of_nat_nonneg = λ n. ground arith;
  of_nat_finite = λ n p. refl;
  lit_nonneg = λ n d p. ground arith;
  lit_finite = λ n p. refl;
  lit_positive = λ n p. ground arith;
  add-infinity = λ a. ground arith;
  total_order = record { swapped = λ a b. ground arith; trans = λ a b c p q. ground arith };
}
