-- ===== src/Protocol/BytesLaws.antt =====
-- Laws of splitting, joining and hexadecimal printing.
use keg_pulse.Base.{
  ℕ, ◌/◌, ◌%◌, ◌<◌, ◌^◌, ◌≡◌, refl, Bool, true, false, none, some, List, [], ◌∷◌, ◌++◌, arith, ◌==◌,
  not, All, ap, inl, inr, Bool-cases, ==_iff,
}
use keg_pulse.Base.Text.{Text}
use keg_pulse.Protocol.Bytes.{
  all, is_hex, unsnoc, rsplit, split, join, hex_digit, hex_value, print_hex4, parse_hex,
  parse_hex_from,
}

-- The text does not hold the character.
abbrev pub Lacks : ℕ → Text → Type 0
Lacks c t = all (λ x. not (x == c)) t ≡ true

-- A class within another
abbrev pub Within : (ℕ → Bool) → (ℕ → Bool) → Type 0
Within p q = (c : ℕ) → p c ≡ true → q c ≡ true

pub all-Within : (p q : ℕ → Bool) (t : Text) → Within p q → all p t ≡ true → all q t ≡ true
unfolding all
all-Within p q [] h a = refl
all-Within p q (x ∷ xs) h a = ground (arith, h x, all-Within p q xs h)

pub all-append :
    (p : ℕ → Bool) (s t : Text) → all p s ≡ true → all p t ≡ true → all p (s ++ t) ≡ true
unfolding all
all-append p [] t a b = b
all-append p (x ∷ xs) t a b = ground (arith, all-append p xs t)

pub all-cons :
    (p : ℕ → Bool) (x : ℕ) (t : Text) → p x ≡ true → all p t ≡ true → all p (x ∷ t) ≡ true
unfolding all
all-cons p x t a b = ground arith

pub all-join :
    (p : ℕ → Bool) (c : ℕ) (ws : List Text)
    → p c ≡ true
    → All (λ w. all p w ≡ true) ws
    → all p (join c ws) ≡ true
unfolding join
all-join p c [] h a = unfold all in refl
all-join p c (w ∷ []) h a = a.0
all-join p c (w ∷ v ∷ vs) h a =
    all-append p w (c ∷ join c (v ∷ vs)) a.0
      (all-cons p c (join c (v ∷ vs)) h (all-join p c (v ∷ vs) h a.1))

pub unsnoc-append : (xs : Text) (y : ℕ) → unsnoc (xs ++ (y ∷ [])) ≡ some (xs, y)
unfolding unsnoc
unsnoc-append [] y = refl
unsnoc-append (x ∷ xs) y = rw (unsnoc-append xs y)

rsplit-Lacks : (c : ℕ) (t : Text) → Lacks c t → rsplit c t ≡ none
unfolding rsplit all
rsplit-Lacks c [] h = refl
rsplit-Lacks c (x ∷ xs) h = ground (arith, rsplit-Lacks c xs)

pub rsplit-append : (c : ℕ) (s t : Text) → Lacks c t → rsplit c (s ++ (c ∷ t)) ≡ some (s, t)
unfolding rsplit
rsplit-append c [] t h = ground (arith, rsplit-Lacks c t h)
rsplit-append c (x ∷ xs) t h = rw (rsplit-append c xs t h)

pub split-Lacks : (c : ℕ) (t : Text) → Lacks c t → split c t ≡ t ∷ []
unfolding split all
split-Lacks c [] h = refl
split-Lacks c (x ∷ xs) h = ground (arith, split-Lacks c xs)

pub split-append : (c : ℕ) (s t : Text) → Lacks c s → split c (s ++ (c ∷ t)) ≡ s ∷ split c t
unfolding split all
split-append c [] t h = ground arith
split-append c (x ∷ xs) t h = ground (arith, split-append c xs t)

-- Splitting undoes joining where no part holds the separator.
pub split-join :
    (c : ℕ) (w : Text) (ws : List Text)
    → All (Lacks c) (w ∷ ws)
    → split c (join c (w ∷ ws)) ≡ w ∷ ws
unfolding join
split-join c w [] h = split-Lacks c w h.0
split-join c w (v ∷ vs) h =
    rw (split-append c w (join c (v ∷ vs)) h.0) (ap (◌∷◌ w) (split-join c v vs h.1))

hex_value-hex_digit : (n : ℕ) → n < 16 → hex_value (hex_digit n) ≡ n
unfolding hex_value hex_digit
hex_value-hex_digit n h = ground arith

pub hex_digit-is_hex : (n : ℕ) → n < 16 → is_hex (hex_digit n) ≡ true
unfolding is_hex hex_digit
hex_digit-is_hex n h = ground arith

pub parse_hex-print_hex4 : (n : ℕ) → n < 2 ^ 16 → parse_hex (print_hex4 n) ≡ n
unfolding parse_hex parse_hex_from print_hex4
parse_hex-print_hex4 n h =
    rw
      (
        hex_value-hex_digit (n / 4096 % 16) (omega arith),
        hex_value-hex_digit (n / 256 % 16) (omega arith),
        hex_value-hex_digit (n / 16 % 16) (omega arith),
        hex_value-hex_digit (n % 16) (omega arith),
      )
      (omega arith)

pub all-print_hex4 : (n : ℕ) → all is_hex (print_hex4 n) ≡ true
unfolding print_hex4 all
all-print_hex4 n = rw (
  hex_digit-is_hex (n / 4096 % 16) (omega arith),
  hex_digit-is_hex (n / 256 % 16) (omega arith),
  hex_digit-is_hex (n / 16 % 16) (omega arith),
  hex_digit-is_hex (n % 16) (omega arith),
)

pub all_cons_parts :
    (p : ℕ → Bool) (x : ℕ) (xs : Text) → all p (x ∷ xs) ≡ true → (p x ≡ true) × (all p xs ≡ true)
unfolding all
all_cons_parts p x xs h = ground arith

-- A text of characters that do not include the separator does not hold it.
pub lacks : (c : ℕ) (p : ℕ → Bool) (t : Text) → p c ≡ false → all p t ≡ true → Lacks c t
unfolding all
lacks c p [] h a = refl
lacks c p (x ∷ xs) h a = elim (Bool-cases (x == c)) [
  | inl e ↦ let x_is_c : x ≡ c = (==_iff x c).0 e in cc (ap p x_is_c, (all_cons_parts p x xs a).0)
  | inr e ↦ rw e (lacks c p xs h (all_cons_parts p x xs a).1)
]
