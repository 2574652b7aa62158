-- ===== src/Measurement/Numbers.antt =====
-- Decimal numbers in the fields of a frame: `int(text)` and `str(n)`.
use keg_pulse.Base.{
  ℕ, zero, suc, ◌+◌, ◌-◌, ◌*◌, ◌/◌, ◌%◌, ◌<◌, ◌≡◌, refl, Bool, true, false, Option, none, some, [],
  ◌∷◌, arith, ltb, ◌==◌, if◌then◌else◌, ℤ, pos, negsuc, inl, inr, Bool-cases, ap, ◌∙◌,
}
use keg_pulse.Base.Text.{Text}
use keg_pulse.Protocol.Bytes.{all, is_digit}
use keg_pulse.Protocol.BytesLaws.{all-cons}

-- `int(text)` for a text of decimal digits
unfoldable pub decimal_from : ℕ → Text → ℕ
decimal_from acc [] = acc
decimal_from acc (c ∷ cs) = decimal_from (acc * 10 + (c - b'0')) cs

unfoldable pub decimal : Text → ℕ
decimal cs = decimal_from 0 cs

-- `int(text)` without a sign, on the characters that a field value can hold: digits, with single
-- underscores between digits. The flag says that a digit has just been read.
unfoldable pub digits_from : ℕ → Bool → Text → Option ℕ
digits_from acc true [] = some acc
digits_from acc false [] = none
digits_from acc after_digit (c ∷ cs) = elim (is_digit c) [
  | true ↦ digits_from (acc * 10 + (c - b'0')) true cs
  | false ↦ if c == b'_' then (if after_digit then digits_from acc false cs else none) else none
]

abbrev pub negated : Option ℕ → Option ℤ
negated none = none
negated (some zero) = some (pos 0)
negated (some (suc n)) = some (negsuc n)

abbrev pub positive : Option ℕ → Option ℤ
positive none = none
positive (some n) = some (pos n)

-- `int(text)`
unfoldable pub parse_int : Text → Option ℤ
parse_int [] = none
parse_int (c ∷ cs) =
    if c == b'-' then negated (digits_from 0 false cs) else positive (digits_from 0 false (c ∷ cs))

-- `str(n)`, most significant digit first, on fuel above n
unfoldable pub print_from : ℕ → ℕ → Text → Text
print_from zero n rest = rest
print_from (suc fuel) n rest = elim (ltb n 10) [
  | true ↦ (b'0' + n) ∷ rest
  | false ↦ print_from fuel (n / 10) ((b'0' + n % 10) ∷ rest)
]

unfoldable pub print_decimal : ℕ → Text
unfolding print_from
print_decimal n = print_from (suc n) n []

digit_lem : (n : ℕ) → n < 10 → (is_digit (b'0' + n) ≡ true) × ((b'0' + n) - b'0' ≡ n)
unfolding is_digit
digit_lem n h = (ground arith, omega arith)

digits_from_digit :
    (acc n : ℕ) (b : Bool) (rest : Text)
    → n < 10
    → digits_from acc b ((b'0' + n) ∷ rest) ≡ digits_from (acc * 10 + n) true rest
unfolding digits_from
digits_from_digit acc n true rest h = ground (arith, digit_lem n h)
digits_from_digit acc n false rest h = ground (arith, digit_lem n h)

-- Reading goes on behind the printed number.
digits_from-print_from :
    (fuel n : ℕ) (rest : Text)
    → n < fuel
    → digits_from 0 false (print_from fuel n rest) ≡ digits_from n true rest
unfolding print_from
digits_from-print_from zero n rest h = absurd (omega arith)
digits_from-print_from (suc fuel) n rest h = elim (Bool-cases (ltb n 10)) [
  | inl e ↦
      rw (e, print_from)
        (digits_from_digit 0 n false rest (ground arith)
          ∙ ap (λ k. digits_from k true rest) (omega arith))
  | inr e ↦
      rw (e, print_from)
        (digits_from-print_from fuel (n / 10) ((b'0' + n % 10) ∷ rest) (ground arith)
          ∙ digits_from_digit (n / 10) (n % 10) true rest (omega arith)
          ∙ ap (λ k. digits_from k true rest) (omega arith))
]

digits_from-print_decimal : (n : ℕ) → digits_from 0 false (print_decimal n) ≡ some n
unfolding print_decimal
digits_from-print_decimal n =
    digits_from-print_from (suc n) n [] (omega arith) ∙ unfold digits_from in refl

print_from-digits :
    (fuel n : ℕ) (rest : Text)
    → all is_digit rest ≡ true
    → all is_digit (print_from fuel n rest) ≡ true
unfolding print_from
print_from-digits zero n rest h = h
print_from-digits (suc fuel) n rest h = elim (Bool-cases (ltb n 10)) [
  | inl e ↦ rw (e, print_from) (all-cons is_digit (b'0' + n) rest (digit_lem n (ground arith)).0 h)
  | inr e ↦
      rw (e, print_from)
        (print_from-digits fuel (n / 10) ((b'0' + n % 10) ∷ rest)
          (all-cons is_digit (b'0' + n % 10) rest (digit_lem (n % 10) (omega arith)).0 h))
]

-- A printed number is made of digits.
pub print_decimal-digits : (n : ℕ) → all is_digit (print_decimal n) ≡ true
unfolding print_decimal
print_decimal-digits n = print_from-digits (suc n) n [] (unfold all in refl)

parse_int_unsigned :
    (t : Text) → all is_digit t ≡ true → parse_int t ≡ positive (digits_from 0 false t)
unfolding parse_int
parse_int_unsigned [] h = unfold digits_from in refl
parse_int_unsigned (c ∷ cs) h = unfold all is_digit in ground arith

-- `int(str(n))` is n.
pub parse_int-print_decimal : (n : ℕ) → parse_int (print_decimal n) ≡ some (pos n)
parse_int-print_decimal n =
    parse_int_unsigned (print_decimal n) (print_decimal-digits n)
    ∙ ap positive (digits_from-print_decimal n)
