-- ===== src/Float/Model.antt =====
-- Numbers with eight decimal places, in the place of float64 for the tests.
use banco.Prelude.{ℕ, ◌+◌, ◌-◌, ◌*◌, ◌/◌, ◌^◌, some, none, ltb, if◌then◌else◌, str_eq}
use banco.Float.{Float64}

-- A number stands for itself divided by 10 ^ 8.
abbrev pub scaled : Float64
scaled = record {
  Float = ℕ;
  literal = λ n d. n * 10 ^ 8 / 10 ^ d;
  of_uint64 = λ n. n * 10 ^ 8;
  to_uint64 = λ f. f / 10 ^ 8;
  add = λ a b. a + b;
  sub = λ a b. a - b;
  mul = λ a b. a * b / 10 ^ 8;
  div = λ a b. a * 10 ^ 8 / b;
  less = ltb;
  pow = λ a b. (a / 10 ^ 8) ^ (b / 10 ^ 8) * 10 ^ 8;
  pow10 = λ n. 10 ^ n * 10 ^ 8;
  parse = λ text.
      if str_eq text "2"
      then some 200_000_000
      else if str_eq text "40000"
      then some 4_000_000_000_000
      else none;
  format_v = λ f. "2";
  format_f = λ f. "2.000000";
}
