-- ===== src/Base/Text.antt =====
-- Texts as lists of code points, which are bytes where the text is ASCII.
use Prim.Native.Nat.{ℕ}
use Prim.Native.Char.{code}
use Prim.Native.String.{String}
use mathlib.Core.Path.{◌≡◌, refl}
use mathlib.Core.Logic.{◌↔◌}
use mathlib.Core.Bool.{Bool, true, false, ◌&&◌}
use mathlib.Core.List.{List, [], ◌∷◌}
use mathlib.Core.Option.{Option, none, some}
use native.Mathlib.Omega.{arith}
use keg_pulse.Base.Tests.{◌==◌, ltb, if◌then◌else◌}

abbrev pub Text : Type 0
Text = List ℕ

-- The code points of a literal.
abbrev pub codes : String → Text
codes String.[] = []
codes (String.◌∷◌ c s) = code c ∷ codes s

-- `a == b` on texts
infix 50 ◌=t◌
unfoldable pub ◌=t◌ : Text → Text → Bool
[] =t [] = true
[] =t (y ∷ ys) = false
(x ∷ xs) =t [] = false
(x ∷ xs) =t (y ∷ ys) = x == y && xs =t ys

pub =t_to : (s t : Text) → (s =t t) ≡ true → s ≡ t
unfolding ◌=t◌
=t_to [] [] h = refl
=t_to [] (y ∷ ys) h = ground arith
=t_to (x ∷ xs) [] h = ground arith
=t_to (x ∷ xs) (y ∷ ys) h = ground (arith, =t_to xs ys)

pub =t_refl : (s : Text) → (s =t s) ≡ true
unfolding ◌=t◌
=t_refl [] = refl
=t_refl (x ∷ xs) = ground (arith, =t_refl xs)

pub =t_iff : (s t : Text) → ((s =t t) ≡ true) ↔ (s ≡ t)
=t_iff s t = (=t_to s t, λ e. rw e (=t_refl t))

-- `a == b` where either may be None
unfoldable pub opt_eq : Option Text → Option Text → Bool
opt_eq none none = true
opt_eq none (some t) = false
opt_eq (some s) none = false
opt_eq (some s) (some t) = s =t t

-- A value that may be None, against a text
unfoldable pub opt_is : Option Text → Text → Bool
opt_is none t = false
opt_is (some s) t = s =t t

-- `a < b` on texts, in the order of the code points
unfoldable pub text_ltb : Text → Text → Bool
text_ltb s [] = false
text_ltb [] (y ∷ ys) = true
text_ltb (x ∷ xs) (y ∷ ys) = let rest = text_ltb xs ys in if x == y then rest else ltb x y
