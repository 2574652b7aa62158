-- ===== src/Calibration/Whole.antt =====
-- Whole numbers as decimals, on which the tests compute.
use keg_pulse.Base.{
  ℕ, ◌+◌, ◌-◌, ◌*◌, ◌/◌, true, false, some, [], ◌∷◌, ltb, ◌==◌, if◌then◌else◌, pos,
}
use keg_pulse.Base.Text.{Text}
use keg_pulse.Measurement.Numbers.{print_decimal}
use keg_pulse.Calibration.Decimals.{Decimals}

-- The part of a literal before its point
abbrev pub whole_from : ℕ → Text → ℕ
whole_from acc [] = acc
whole_from acc (c ∷ cs) =
    let rest = whole_from (acc * 10 + (c - b'0')) cs in if c == b'.' then acc else rest

abbrev pub whole : Decimals
whole = record {
  Number = ℕ;
  parse = λ t. some (whole_from 0 t);
  is_negative_infinity = λ t. false;
  literal = λ t. whole_from 0 t;
  print = print_decimal;
  of_nat = λ n. n;
  add = λ a b. a + b;
  sub = λ a b. a - b;
  mul = λ a b. a * b;
  div = λ a b. a / b;
  absolute = λ n. n;
  square = λ n. n * n;
  sqrt = λ n. n;
  is_finite = λ n. true;
  lt = ltb;
  median = λ ns. 0;
  round_half_up = λ n. pos n;
}
