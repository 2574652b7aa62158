-- ===== src/Base/Strip.antt =====
-- `str.strip`, on code points
use keg_pulse.Base.Tests.{leb, ◌==◌, if◌then◌else◌}
use Prim.Native.Nat.{ℕ}
use mathlib.Core.Bool.{Bool, ◌&&◌, ◌||◌}
use mathlib.Core.List.{[], ◌∷◌}
use keg_pulse.Base.Text.{Text}

-- The white space of `str.strip`
unfoldable pub is_space : ℕ → Bool
is_space c =
    leb 9 c && leb c 13
    || leb 28 c && leb c 32
    || c == 133
    || c == 160
    || c == 5760
    || leb 8192 c && leb c 8202
    || c == 8232
    || c == 8233
    || c == 8239
    || c == 8287
    || c == 12288

unfoldable pub lstrip : Text → Text
unfolding is_space
lstrip [] = []
lstrip (c ∷ cs) = let rest = lstrip cs in if is_space c then rest else c ∷ cs

-- Characters with the property are dropped at the end.
unfoldable pub rstrip_by : (ℕ → Bool) → Text → Text
rstrip_by drop [] = []
rstrip_by drop (c ∷ cs) = elim (rstrip_by drop cs) [
  | [] ↦ if drop c then [] else c ∷ []
  | d ∷ ds ↦ c ∷ d ∷ ds
]

-- `text.strip()`
unfoldable pub strip : Text → Text
unfolding is_space lstrip rstrip_by
strip t = rstrip_by is_space (lstrip t)
