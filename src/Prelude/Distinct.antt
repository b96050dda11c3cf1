-- ===== src/Prelude/Distinct.antt =====
-- Lists without repetitions, as sets.
use Prim.Native.Nat.{suc, ◌≤◌}
use mathlib.Core.Path.{◌≡◌, refl, sym, subst, ◌∙◌}
use mathlib.Core.Bool.{true, false, not}
use mathlib.Core.Logic.{inl, inr}
use mathlib.Core.List.{List, [], ◌∷◌, ◌++◌}
use native.Mathlib.Omega.{arith}
use federated_reserve.Prelude.Tests.{if◌then◌else◌, Eq, ◌==◌, Bool-cases}
use federated_reserve.Prelude.Lists.{length, contains, select}

module _ {ℓ} {A : Type ℓ} ⦃e : Eq A⦄ where
  abbrev pub IsDistinct : List A → Type 0
  IsDistinct [] = Unit
  IsDistinct (x ∷ xs) = (contains x xs ≡ false) × IsDistinct xs

  pub contains-append :
      (a x : A) (xs : List A) → contains a (xs ++ x ∷ []) ≡ (if contains a xs then true else x == a)
  contains-append a x [] = ground arith
  contains-append a x (y ∷ xs) = ground (arith, contains-append a x xs)

  pub append-IsDistinct :
      (x : A) (xs : List A) → contains x xs ≡ false → IsDistinct xs → IsDistinct (xs ++ x ∷ [])
  append-IsDistinct x [] h n = (refl, tt)
  append-IsDistinct x (y ∷ xs) h (m, n) = (
    contains-append y x xs ∙ ground (arith, m, e.same_iff x y, e.same_iff y x, h),
    append-IsDistinct x xs (ground arith) n,
  )

  without : A → List A → List A
  without x xs = select (λ y. not (y == x)) xs

  contains-without :
      (x z : A) (xs : List A)
      → contains z (without x xs) ≡ (if x == z then false else contains z xs)
  unfolding without
  contains-without x z [] = ground arith
  contains-without x z (y ∷ xs) = ground (
    arith,
    contains-without x z xs,
    e.same_iff x z,
    e.same_iff y x,
    e.same_iff y z,
    e.same_iff x y,
  )

  without-IsDistinct : (x : A) (xs : List A) → IsDistinct xs → IsDistinct (without x xs)
  unfolding without
  without-IsDistinct x [] n = tt
  without-IsDistinct x (y ∷ xs) (m, n) = elim (Bool-cases (y == x)) [
    | inl same ↦ rw same (without-IsDistinct x xs n)
    | inr other ↦ rw other (contains-without x y xs ∙ ground (arith, m), without-IsDistinct x xs n)
  ]

  length-without_absent :
      (x : A) (xs : List A) → contains x xs ≡ false → length (without x xs) ≡ length xs
  unfolding without
  length-without_absent x [] h = refl
  length-without_absent x (y ∷ xs) h = ground (arith, length-without_absent x xs)

  length-without :
      (x : A) (xs : List A)
      → IsDistinct xs
      → contains x xs ≡ true
      → suc (length (without x xs)) ≡ length xs
  unfolding without
  length-without x [] n h = cc
  length-without x (y ∷ xs) (m, n) h = elim (Bool-cases (y == x)) [
    | inl same ↦
        let absent : contains x xs ≡ false =
          subst (λ z. contains z xs ≡ false) ((e.same_iff y x).0 same) m in
        rw same (omega (arith, length-without_absent x xs absent))
    | inr other ↦ rw other (omega (arith, length-without x xs n (ground arith)))
  ]

  -- A list without repetitions is no longer than one that it is part of.
  pub length-subset :
      (xs ys : List A)
      → IsDistinct xs
      → IsDistinct ys
      → ((z : A) → contains z xs ≡ true → contains z ys ≡ true)
      → length xs ≤ length ys
  length-subset [] ys n k h = omega arith
  length-subset (x ∷ xs) ys (m, n) k h =
      let here : contains x ys ≡ true = h x (ground (arith, e.same_iff x x)) in
      let rest : length xs ≤ length (without x ys) =
        length-subset xs (without x ys) n (without-IsDistinct x ys k) (λ z w. kept z w) in
      omega (arith, rest, length-without x ys k here)
    where
      kept : (z : A) → contains z xs ≡ true → contains z (without x ys) ≡ true
      kept z w = contains-without x z ys ∙ elim (Bool-cases (x == z)) [
        | inl same ↦
            absurd (clash (sym w ∙ subst (λ v. contains v xs ≡ false) ((e.same_iff x z).0 same) m))
        | inr other ↦ rw other (h z (ground (arith, w, other)))
      ]
        where
          clash : true ≡ false → ⊥
          clash c = cc

  -- Of two lists without repetitions and of one length, the one is part of the other only if the
  -- other is part of the one.
  pub subset_of_length :
      (xs ys : List A)
      → IsDistinct xs
      → IsDistinct ys
      → length xs ≡ length ys
      → ((z : A) → contains z xs ≡ true → contains z ys ≡ true)
      → (z : A) → contains z ys ≡ true
      → contains z xs ≡ true
  subset_of_length xs ys n k same h z there = elim (Bool-cases (contains z xs)) [
    | inl found ↦ found
    | inr missing ↦ absurd (omega (arith, same, length-subset (z ∷ xs) ys (missing, n) k widened))
  ]
    where
      widened : (w : A) → contains w (z ∷ xs) ≡ true → contains w ys ≡ true
      widened w c = elim (Bool-cases (z == w)) [
        | inl one ↦ subst (λ v. contains v ys ≡ true) ((e.same_iff z w).0 one) there
        | inr other ↦ h w (ground (arith, c, other))
      ]
