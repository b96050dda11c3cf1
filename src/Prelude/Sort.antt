-- ===== src/Prelude/Sort.antt =====
-- `xs.sort(cmp)`: JavaScript's sort is stable, so insertion sort gives the same list. `before a b`
-- stands for `cmp(a, b) <= 0`.
use Prim.Native.Nat.{suc}
use mathlib.Core.Path.{◌≡◌, refl, sym, subst}
use mathlib.Core.Bool.{Bool, true, false}
use mathlib.Core.Logic.{inl, inr}
use mathlib.Core.Option.{some}
use mathlib.Core.List.{List, [], ◌∷◌}
use native.Mathlib.Omega.{arith}
use federated_reserve.Prelude.Tests.{if◌then◌else◌, Bool-cases}
use federated_reserve.Prelude.Lists.{length, All, All-imp, All-of_length_zero, first}

module _ {ℓ} {A : Type ℓ} (before : A → A → Bool) where
  unfoldable pub place : A → List A → List A
  place x [] = x ∷ []
  place x (y ∷ ys) = if before x y then x ∷ y ∷ ys else y ∷ place x ys

  unfoldable pub sort : List A → List A
  unfolding place
  sort [] = []
  sort (x ∷ xs) = place x (sort xs)

  length-place : (x : A) (xs : List A) → length (place x xs) ≡ suc (length xs)
  unfolding place
  length-place x [] = refl
  length-place x (y ∷ ys) = ground (arith, length-place x ys)

  pub length-sort : (xs : List A) → length (sort xs) ≡ length xs
  unfolding sort
  length-sort [] = refl
  length-sort (x ∷ xs) = ground (arith, length-place x (sort xs), length-sort xs)

  module _ {κ} (P : A → Type κ) where
    All-place : (x : A) (xs : List A) → P x → All P xs → All P (place x xs)
    unfolding place
    All-place x [] p h = (p, tt)
    All-place x (y ∷ ys) p (q, h) = elim (Bool-cases (before x y)) [
      | inl e ↦ rw e (p, (q, h))
      | inr e ↦ rw e (q, All-place x ys p h)
    ]

    pub All-sort : (xs : List A) → All P xs → All P (sort xs)
    unfolding sort
    All-sort [] h = tt
    All-sort (x ∷ xs) (p, h) = All-place x (sort xs) p (All-sort xs h)

  module _ (total : (a b : A) → before a b ≡ false → before b a ≡ true)
      (trans : (a b c : A) → before a b ≡ true → before b c ≡ true → before a c ≡ true) where
    reflexive : (a : A) → before a a ≡ true
    reflexive a = elim (Bool-cases (before a a)) [ inl h ↦ h | inr h ↦ total a a h ]

    first-place :
        (x : A) (xs s : List A) (w : A)
        → length s ≡ length xs
        → ((v : A) → first s ≡ some v → All (λ b. before v b ≡ true) xs)
        → first (place x s) ≡ some w
        → (before w x ≡ true) × All (λ b. before w b ≡ true) xs
    unfolding place
    first-place x xs [] w n ih e =
        let same : x ≡ w = ground arith in
        (subst (λ z. before z x ≡ true) same (reflexive x), All-of_length_zero _ xs (sym n))
    first-place x xs (y ∷ ys) w n ih e = elim (Bool-cases (before x y)) [
      | inl h ↦
          let same : x ≡ w = ground arith in
          subst (λ z. (before z x ≡ true) × All (λ b. before z b ≡ true) xs) same
            (reflexive x, All-imp _ _ xs (λ b k. trans x y b h k) (ih y refl))
      | inr h ↦
          let same : y ≡ w = ground arith in
          subst (λ z. (before z x ≡ true) × All (λ b. before z b ≡ true) xs) same
            (total x y h, ih y refl)
    ]

    -- The first of a sorted list comes before every entry.
    pub first-sort :
        (xs : List A) (w : A) → first (sort xs) ≡ some w → All (λ b. before w b ≡ true) xs
    unfolding sort
    first-sort [] w e = tt
    first-sort (x ∷ xs) w e = first-place x xs (sort xs) w (length-sort xs) (first-sort xs) e
