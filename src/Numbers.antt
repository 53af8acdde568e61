-- ===== src/Numbers.antt =====
-- The JavaScript number arithmetic that the prices and refunds are computed with. It is not code of
-- the repository: a record of operations is an argument of what computes with it, and the laws
-- that a theorem needs are a second record.
use hub_assist.Common.{ℕ, ◌+◌, ◌*◌, ◌/◌, ◌^◌, ◌-◌, ◌≤◌, ◌<◌, ◌≡◌, arith}

pub record Numbers : Type 1 where
  pub Num : Type 0
  -- An integer, and the decimal literal `n / 10 ^ d`.
  pub number : ℕ → Num
  pub decimal : ℕ → ℕ → Num
  -- `Number(x)` of a `decimal(10, 2)` column with that many cents.
  pub of_cents : ℕ → Num
  pub add : Num → Num → Num
  pub sub : Num → Num → Num
  pub mul : Num → Num → Num
  pub div : Num → Num → Num
  -- `Number(x.toFixed(6))`.
  pub to_fixed_6 : Num → Num
  -- `Number(x.toFixed(2))`, as the cents of the column that stores it.
  pub to_cents : Num → ℕ

-- IEEE multiplication, division and rounding to a number of digits are monotone, and a
-- two-digit amount of a `decimal(10, 2)` column survives `* 100 / 100` and rounding to two digits.
pub record Rounding (N : Numbers) : Type 1 where
  pub Le : N.Num → N.Num → Type 0
  pub number_mono : (m n : ℕ) → m ≤ n → Le (N.number m) (N.number n)
  pub mul_mono :
      (c : ℕ) (x y : N.Num) → Le x y → Le (N.mul (N.of_cents c) x) (N.mul (N.of_cents c) y)
  pub div_mono :
      (x y : N.Num) (n : ℕ) → 0 < n → Le x y → Le (N.div x (N.number n)) (N.div y (N.number n))
  pub to_cents_mono : (x y : N.Num) → Le x y → N.to_cents x ≤ N.to_cents y
  pub hundredths :
      (c : ℕ)
      → c < 10 ^ 10
      → N.to_cents (N.div (N.mul (N.of_cents c) (N.number 100)) (N.number 100)) ≡ c

-- Fixed-point numbers with six digits: one way to meet the laws, which the examples run with.
abbrev pub micros : Numbers
micros = record {
  Num = ℕ;
  number = λ n. n * 1000000;
  decimal = λ n d. n * 1000000 / 10 ^ d;
  of_cents = λ c. c * 10000;
  add = λ a b. a + b;
  sub = λ a b. a - b;
  mul = λ a b. a * b / 1000000;
  div = λ a b. a * 1000000 / b;
  to_fixed_6 = λ a. a;
  to_cents = λ a. (a + 5000) / 10000;
}

micros_mul : (c x y : ℕ) → x ≤ y → c * 10000 * x / 1000000 ≤ c * 10000 * y / 1000000
micros_mul c x y h = grind arith

micros_div : (x y n : ℕ) → 0 < n → x ≤ y → x * 1000000 / (n * 1000000) ≤ y * 1000000 / (n * 1000000)
micros_div x y n p h = grind arith

micros_hundredths :
    (c : ℕ) → (c * 10000 * (100 * 1000000) / 1000000 * 1000000 / (100 * 1000000) + 5000) / 10000 ≡ c
micros_hundredths c = omega arith

pub micros-Rounding : Rounding micros
micros-Rounding = record {
  Le = λ a b. a ≤ b;
  number_mono = λ m n h. omega arith;
  mul_mono = λ c x y h. micros_mul c x y h;
  div_mono = λ x y n p h. micros_div x y n p h;
  to_cents_mono = λ x y h. omega arith;
  hundredths = λ c _. micros_hundredths c;
}
