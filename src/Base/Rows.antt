-- ===== src/Base/Rows.antt =====
-- Tables as lists of rows, the newest first: what SELECT, UPDATE … WHERE and a unique index need.
use keg_pulse.Base.Tests.{if◌then◌else◌, is_none, Bool-cases}
use keg_pulse.Base.Lists.{All}
use mathlib.Core.Path.{◌≡◌, refl, subst}
use mathlib.Core.Logic.{inl, inr}
use mathlib.Core.Bool.{Bool, true, false, not}
use mathlib.Core.Option.{Option, none, some}
use mathlib.Core.List.{List, [], ◌∷◌}
use native.Mathlib.Omega.{arith}

module _ {ℓ} {A : Type ℓ} where
  -- A row with the property
  unfoldable pub find : (A → Bool) → List A → Option A
  find p [] = none
  find p (x ∷ xs) = if p x then some x else find p xs

  -- `SELECT 1 … WHERE p`
  unfoldable pub has_row : (A → Bool) → List A → Bool
  unfolding find
  has_row p xs = not (is_none (find p xs))

  -- `UPDATE … WHERE p`
  unfoldable pub update_where : (A → Bool) → (A → A) → List A → List A
  update_where p f [] = []
  update_where p f (x ∷ xs) = (if p x then f x else x) ∷ update_where p f xs

  -- `SELECT * … WHERE p`
  unfoldable pub select : (A → Bool) → List A → List A
  select p [] = []
  select p (x ∷ xs) = let rest = select p xs in if p x then x ∷ rest else rest

  pub find-holds : (p : A → Bool) (xs : List A) (x : A) → find p xs ≡ some x → p x ≡ true
  unfolding find
  find-holds p [] x e = absurd (ground arith)
  find-holds p (y ∷ ys) x e = elim (Bool-cases (p y)) [
    | inl h ↦ (let same : y ≡ x = ground arith in rw (← same) h)
    | inr h ↦ find-holds p ys x (rw h at e)
  ]

  pub find-All {κ} :
      (p : A → Bool) (P : A → Type κ) (xs : List A) (x : A) → All P xs → find p xs ≡ some x → P x
  unfolding find
  find-All p P [] x h e = absurd (ground arith)
  find-All p P (y ∷ ys) x h e = elim (Bool-cases (p y)) [
    | inl q ↦ (let same : y ≡ x = ground arith in subst P same h.0)
    | inr q ↦ find-All p P ys x h.1 (rw q at e)
  ]

  -- An update that keeps the property of a search changes what it finds, and only that.
  pub find-update_where :
      (p q : A → Bool) (f : A → A) (xs : List A) (x : A)
      → ((y : A) → p (f y) ≡ p y)
      → find p xs ≡ some x
      → find p (update_where q f xs) ≡ some (if q x then f x else x)
  unfolding find update_where
  find-update_where p q f [] x k e = absurd (ground arith)
  find-update_where p q f (y ∷ ys) x k e = elim (Bool-cases (p y)) [
    | inl h ↦ (let same : y ≡ x = ground arith in ground (arith, k y))
    | inr h ↦ (let ih = find-update_where p q f ys x k (rw h at e) in ground (arith, k y))
  ]

  pub find-update_where-none :
      (p q : A → Bool) (f : A → A) (xs : List A)
      → ((y : A) → p (f y) ≡ p y)
      → find p xs ≡ none
      → find p (update_where q f xs) ≡ none
  unfolding find update_where
  find-update_where-none p q f [] k e = refl
  find-update_where-none p q f (y ∷ ys) k e = elim (Bool-cases (p y)) [
    | inl h ↦ absurd (ground arith)
    | inr h ↦ (let ih = find-update_where-none p q f ys k (rw h at e) in ground (arith, k y))
  ]

  pub has_row-update_where :
      (p q : A → Bool) (f : A → A) (xs : List A)
      → ((y : A) → p (f y) ≡ p y)
      → has_row p (update_where q f xs) ≡ has_row p xs
  unfolding find has_row update_where
  has_row-update_where p q f [] k = refl
  has_row-update_where p q f (y ∷ ys) k =
      let ih = has_row-update_where p q f ys k in
      let same = k y in
      elim (Bool-cases (q y)) [
        | inl h ↦ elim (Bool-cases (p y)) [ inl e ↦ ground arith | inr e ↦ ground arith ]
        | inr h ↦ elim (Bool-cases (p y)) [ inl e ↦ ground arith | inr e ↦ ground arith ]
      ]

  pub has_row-cons :
      (p : A → Bool) (x : A) (xs : List A) → has_row p xs ≡ true → has_row p (x ∷ xs) ≡ true
  unfolding has_row find
  has_row-cons p x xs h = elim (Bool-cases (p x)) [ inl e ↦ rw e refl | inr e ↦ rw e h ]

  pub find→has_row : (p : A → Bool) (xs : List A) (x : A) → find p xs ≡ some x → has_row p xs ≡ true
  unfolding has_row
  find→has_row p xs x e = rw e refl

  pub All-map {κ μ} :
      (P : A → Type κ) (Q : A → Type μ) (xs : List A) → ((x : A) → P x → Q x) → All P xs → All Q xs
  All-map P Q [] f h = tt
  All-map P Q (x ∷ xs) f h = (f x h.0, All-map P Q xs f h.1)

  pub All-update_where {κ} :
      (p : A → Bool) (f : A → A) (P Q : A → Type κ) (xs : List A)
      → ((x : A) → p x ≡ true → P x → Q (f x))
      → ((x : A) → p x ≡ false → P x → Q x)
      → All P xs
      → All Q (update_where p f xs)
  unfolding update_where
  All-update_where p f P Q [] hit miss h = h
  All-update_where p f P Q (x ∷ xs) hit miss h =
      let rest = All-update_where p f P Q xs hit miss h.1 in
      elim (Bool-cases (p x)) [
        | inl e ↦ rw e (hit x e h.0, rest)
        | inr e ↦ rw e (miss x e h.0, rest)
      ]
