-- ===== src/Protocol/Bytes.antt =====
-- Splitting and joining of texts, hexadecimal digits and character classes, as
-- src/kegpulse/protocol/frames.py uses them.
use keg_pulse.Base.{
  ℕ, ◌+◌, ◌-◌, ◌*◌, ◌/◌, ◌%◌, Bool, true, ◌&&◌, ◌||◌, Option, none, some, List, [], ◌∷◌, ◌++◌, leb,
  ltb, ◌==◌, if◌then◌else◌,
}
use keg_pulse.Base.Text.{Text}

-- All characters pass a test.
unfoldable pub all : (ℕ → Bool) → Text → Bool
all p [] = true
all p (x ∷ xs) = p x && all p xs

unfoldable pub is_digit : ℕ → Bool
is_digit c = leb b'0' c && leb c b'9'

unfoldable pub is_upper : ℕ → Bool
is_upper c = leb b'A' c && leb c b'Z'

unfoldable pub is_lower : ℕ → Bool
is_lower c = leb b'a' c && leb c b'z'

-- `[0-9A-F]`
unfoldable pub is_hex : ℕ → Bool
unfolding is_digit
is_hex c = is_digit c || (leb b'A' c && leb c b'F')

-- `[A-Z0-9_]`
unfoldable pub is_op_char : ℕ → Bool
unfolding is_digit is_upper
is_op_char c = is_upper c || is_digit c || c == b'_'

-- `[a-z0-9_]`
unfoldable pub is_key_char : ℕ → Bool
unfolding is_digit is_lower
is_key_char c = is_lower c || is_digit c || c == b'_'

-- `[A-Za-z0-9._:-]`
unfoldable pub is_value_char : ℕ → Bool
unfolding is_digit is_lower is_upper
is_value_char c =
    is_upper c || is_lower c || is_digit c || c == b'.' || c == b'_' || c == b':' || c == b'-'

-- All but the last entry, and the last
unfoldable pub unsnoc : Text → Option (Text × ℕ)
unsnoc [] = none
unsnoc (x ∷ xs) = elim (unsnoc xs) [
  | none ↦ some ([], x)
  | some (init, last) ↦ some (x ∷ init, last)
]

-- `text.rsplit(c, 1)` where `c` occurs: the parts before and after its last occurrence
unfoldable pub rsplit : ℕ → Text → Option (Text × Text)
rsplit c [] = none
rsplit c (x ∷ xs) = elim (rsplit c xs) [
  | some (before, after) ↦ some (x ∷ before, after)
  | none ↦ if x == c then some ([], xs) else none
]

abbrev pub extend_first : ℕ → List Text → List Text
extend_first x [] = (x ∷ []) ∷ []
extend_first x (w ∷ ws) = (x ∷ w) ∷ ws

-- `text.split(c)`
unfoldable pub split : ℕ → Text → List Text
split c [] = [] ∷ []
split c (x ∷ xs) = if x == c then [] ∷ split c xs else extend_first x (split c xs)

-- `c.join(parts)`
unfoldable pub join : ℕ → List Text → Text
join c [] = []
join c (w ∷ []) = w
join c (w ∷ v ∷ vs) = w ++ (c ∷ join c (v ∷ vs))

-- The upper-case digit for a value below 16, and back
unfoldable pub hex_digit : ℕ → ℕ
hex_digit n = if ltb n 10 then b'0' + n else b'A' + n - 10

unfoldable pub hex_value : ℕ → ℕ
hex_value c = if ltb c b'A' then c - b'0' else c + 10 - b'A'

-- `f"{n:04X}"` for n below 2^16
unfoldable pub print_hex4 : ℕ → Text
print_hex4 n =
    hex_digit (n / 4096 % 16)
    ∷ hex_digit (n / 256 % 16)
    ∷ hex_digit (n / 16 % 16)
    ∷ hex_digit (n % 16)
    ∷ []

-- `int(text, 16)` for upper-case digits
unfoldable pub parse_hex_from : ℕ → Text → ℕ
parse_hex_from acc [] = acc
parse_hex_from acc (c ∷ cs) = parse_hex_from (acc * 16 + hex_value c) cs

unfoldable pub parse_hex : Text → ℕ
parse_hex cs = parse_hex_from 0 cs
