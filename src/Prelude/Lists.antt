-- ===== src/Prelude/Lists.antt =====
-- Lists measured by native numbers, predicates on lists, and the bounded buffers of the program.
use Prim.Native.Nat.{ℕ, zero, suc, ◌+◌, ◌-◌, ◌≤◌, min}
use mathlib.Core.Path.{◌≡◌, refl, ap, sym, subst, ◌∙◌}
use mathlib.Core.Bool.{Bool, true, false}
use mathlib.Core.Logic.{◌⊎◌, inl, inr}
use mathlib.Core.Option.{Option, none, some}
use mathlib.Core.List.{List, [], ◌∷◌, ◌++◌, map}
use native.Mathlib.Omega.{arith}
use federated_reserve.Prelude.Tests.{if◌then◌else◌, ltb, Eq, ◌==◌, Bool-cases}

-- The empty type, at every level.
pub data Empty {ℓ} : Type ℓ where

module _ {ℓ} {A : Type ℓ} where
  abbrev pub length : List A → ℕ
  length [] = 0
  length (x ∷ xs) = suc (length xs)

  pub length-append : (xs ys : List A) → length (xs ++ ys) ≡ length xs + length ys
  length-append [] ys = omega arith
  length-append (x ∷ xs) ys = omega (arith, length-append xs ys)

  abbrev pub take : ℕ → List A → List A
  take zero xs = []
  take (suc n) [] = []
  take (suc n) (x ∷ xs) = x ∷ take n xs

  abbrev pub drop : ℕ → List A → List A
  drop zero xs = xs
  drop (suc n) [] = []
  drop (suc n) (x ∷ xs) = drop n xs

  pub length-take : (n : ℕ) (xs : List A) → length (take n xs) ≡ min n (length xs)
  length-take zero xs = omega arith
  length-take (suc n) [] = omega arith
  length-take (suc n) (x ∷ xs) = omega (arith, length-take n xs)

  pub length-drop : (n : ℕ) (xs : List A) → length (drop n xs) ≡ length xs - n
  length-drop zero xs = omega arith
  length-drop (suc n) [] = omega arith
  length-drop (suc n) (x ∷ xs) = omega (arith, length-drop n xs)

  pub take-append-drop : (n : ℕ) (xs : List A) → take n xs ++ drop n xs ≡ xs
  take-append-drop zero xs = refl
  take-append-drop (suc n) [] = refl
  take-append-drop (suc n) (x ∷ xs) = rw (take-append-drop n xs)

  -- `xs[0]`
  abbrev pub first : List A → Option A
  first [] = none
  first (x ∷ _) = some x

  -- `xs[xs.length - 1]`
  abbrev pub last : List A → Option A
  last [] = none
  last (x ∷ []) = some x
  last (_ ∷ y ∷ ys) = last (y ∷ ys)

  -- `xs.find(p)`
  abbrev pub find : (A → Bool) → List A → Option A
  find p [] = none
  find p (x ∷ xs) = if p x then some x else find p xs

  -- `xs.filter(p)`
  abbrev pub select : (A → Bool) → List A → List A
  select p [] = []
  select p (x ∷ xs) = if p x then x ∷ select p xs else select p xs

  pub length-select : (p : A → Bool) (xs : List A) → length (select p xs) ≤ length xs
  length-select p [] = omega arith
  length-select p (x ∷ xs) = ground (arith, length-select p xs)

pub length-map {ℓ κ} :
    {A : Type ℓ} {B : Type κ} (xs : List A) (f : A → B) → length (map f xs) ≡ length xs
length-map [] f = refl
length-map (x ∷ xs) f = ap suc (length-map xs f)

-- `a` is one of the entries of `xs`.
abbrev pub In {ℓ} : {A : Type ℓ} → A → List A → Type ℓ
In a [] = Empty
In a (x ∷ xs) = (a ≡ x) ⊎ In a xs

module _ {ℓ κ} {A : Type ℓ} (P : A → Type κ) where
  abbrev pub All : List A → Type κ
  All [] = Unit
  All (x ∷ xs) = P x × All xs

  pub All-append : (xs ys : List A) → All xs → All ys → All (xs ++ ys)
  All-append [] ys h k = k
  All-append (x ∷ xs) ys (p, h) k = (p, All-append xs ys h k)

  pub All-drop : (n : ℕ) (xs : List A) → All xs → All (drop n xs)
  All-drop zero xs h = h
  All-drop (suc n) [] h = tt
  All-drop (suc n) (x ∷ xs) (_, h) = All-drop n xs h

  pub All-find : (p : A → Bool) (xs : List A) (a : A) → All xs → find p xs ≡ some a → P a
  All-find p [] a h e = cc
  All-find p (x ∷ xs) a (q, h) e = ground (arith, All-find p xs a h)

  pub All-In : (xs : List A) (a : A) → All xs → In a xs → P a
  All-In [] a h m = elim m [ ]
  All-In (x ∷ xs) a (q, h) (inl e) = subst P (sym e) q
  All-In (x ∷ xs) a (q, h) (inr m) = All-In xs a h m

pub All-imp {ℓ κ μ} :
    {A : Type ℓ} (P : A → Type κ) (Q : A → Type μ) (xs : List A)
    → ((a : A) → P a → Q a)
    → All P xs
    → All Q xs
All-imp P Q [] f h = tt
All-imp P Q (x ∷ xs) f (p, h) = (f x p, All-imp P Q xs f h)

-- What `find` returns is an entry, and satisfies the test.
pub find_sound {ℓ} :
    {A : Type ℓ} (p : A → Bool) (xs : List A) (a : A) → find p xs ≡ some a → p a ≡ true
find_sound p [] a e = cc
find_sound p (x ∷ xs) a e = ground (arith, find_sound p xs a)

pub find-In {ℓ} : {A : Type ℓ} (p : A → Bool) (xs : List A) (a : A) → find p xs ≡ some a → In a xs
find-In p [] a e = cc
find-In p (x ∷ xs) a e = elim (Bool-cases (p x)) [
  | inl h ↦ inl (ground arith)
  | inr h ↦ inr (find-In p xs a (ground arith))
]

pub All-of_length_zero {ℓ κ} :
    {A : Type ℓ} (P : A → Type κ) (xs : List A) → length xs ≡ 0 → All P xs
All-of_length_zero P [] h = tt
All-of_length_zero P (x ∷ xs) h = absurd (omega arith)

-- Every entry of a list is an entry of it.
pub All-In_self {ℓ} : {A : Type ℓ} (xs : List A) → All (λ a. In a xs) xs
All-In_self [] = tt
All-In_self (x ∷ xs) = (inl refl, All-imp (λ a. In a xs) _ xs (λ a m. inr m) (All-In_self xs))

-- `find` fails where no entry passes.
pub find-eq-none {ℓ} :
    {A : Type ℓ} (p : A → Bool) (xs : List A) → All (λ a. p a ≡ false) xs → find p xs ≡ none
find-eq-none p [] h = refl
find-eq-none p (x ∷ xs) (e, h) = rw e (find-eq-none p xs h)

pub All-map {ℓ κ μ} :
    {A : Type ℓ} {B : Type κ} (P : B → Type μ) (f : A → B) (xs : List A)
    → All (λ a. P (f a)) xs
    → All P (map f xs)
All-map P f [] h = tt
All-map P f (x ∷ xs) (p, h) = (p, All-map P f xs h)

-- An entry that satisfies the test is found, or one before it is.
pub find_complete {ℓ} :
    {A : Type ℓ} (p : A → Bool) (xs : List A) (a : A)
    → In a xs
    → p a ≡ true
    → (b : A) × (find p xs ≡ some b)
find_complete p [] a m h = elim m [ ]
find_complete p (x ∷ xs) a (inl e) h = (x, rw (subst (λ z. p z ≡ true) e h))
find_complete p (x ∷ xs) a (inr m) h = elim (Bool-cases (p x)) [
  | inl q ↦ (x, rw q)
  | inr q ↦ rw q (find_complete p xs a m h)
]

-- `xs.includes(a)`
abbrev pub contains {ℓ} : {A : Type ℓ} ⦃e : Eq A⦄ → A → List A → Bool
contains a [] = false
contains a (x ∷ xs) = if x == a then true else contains a xs

-- `xs.push(x); if (xs.length > cap) xs.splice(0, xs.length - cap)`
unfoldable pub push_capped {ℓ} : {A : Type ℓ} → ℕ → List A → A → List A
push_capped cap xs x =
    let pushed = xs ++ x ∷ [] in
    if ltb cap (length pushed) then drop (length pushed - cap) pushed else pushed

module _ {ℓ} {A : Type ℓ} (cap : ℕ) (xs : List A) (x : A) where
  -- The buffer never holds more than its cap.
  pub length-push_capped : length (push_capped cap xs x) ≤ cap
  unfolding push_capped
  length-push_capped = ground (arith, length-drop (length (xs ++ x ∷ []) - cap) (xs ++ x ∷ []))

module _ {ℓ} {A : Type ℓ} where
  -- The last `n` entries.
  abbrev pub keep : ℕ → List A → List A
  keep n xs = drop (length xs - n) xs

  pub drop-append : (n : ℕ) (xs ys : List A) → n ≤ length xs → drop n (xs ++ ys) ≡ drop n xs ++ ys
  drop-append zero xs ys h = refl
  drop-append (suc n) [] ys h = absurd (omega (arith, h))
  drop-append (suc n) (x ∷ xs) ys h = drop-append n xs ys (omega (arith, h))

  drop_nil : (k : ℕ) (xs : List A) → length xs ≡ 0 → drop k xs ≡ xs
  drop_nil zero xs h = refl
  drop_nil (suc k) [] h = refl
  drop_nil (suc k) (x ∷ xs) h = absurd (omega (arith, h))

  pub drop-drop : (m n : ℕ) (xs : List A) → drop m (drop n xs) ≡ drop (n + m) xs
  drop-drop m zero xs = ap (λ k. drop k xs) (omega arith)
  drop-drop m (suc n) [] = drop_nil m [] refl ∙ sym (drop_nil (suc n + m) [] refl)
  drop-drop m (suc n) (x ∷ xs) = drop-drop m n xs ∙ ap (λ k. drop k (x ∷ xs)) (the_suc n m)
    where
      the_suc : (a b : ℕ) → suc (a + b) ≡ suc a + b
      the_suc a b = omega arith

  -- A push on the last entries gives the last entries after the push.
  pub push_capped-keep :
      (cap : ℕ) (xs : List A) (x : A) → push_capped cap (keep cap xs) x ≡ keep cap (xs ++ x ∷ [])
  unfolding push_capped
  push_capped-keep cap xs x =
      let k : ℕ = length xs - cap in
      let ws : List A = xs ++ x ∷ [] in
      let one : length ws ≡ length xs + 1 = length-append xs (x ∷ []) in
      let rest : length (drop k ws) ≡ length ws - k = length-drop k ws in
      ap
        (λ (pushed : List A).
          if ltb cap (length pushed) then drop (length pushed - cap) pushed else pushed)
        (sym (drop-append k xs (x ∷ []) (omega arith)))
      ∙ elim (Bool-cases (ltb cap (length (drop k ws)))) [
        | inl e ↦ rw e (
            drop-drop (length (drop k ws) - cap) k ws
            ∙ ap (λ n. drop n ws) (omega (arith, one, rest)))
        | inr e ↦
            let small : length (drop k ws) ≤ cap = ground arith in
            rw e (ap (λ n. drop n ws) (omega (arith, one, rest, small)))
      ]

  pub last-snoc : (xs : List A) (x : A) → last (xs ++ x ∷ []) ≡ some x
  last-snoc [] x = refl
  last-snoc (y ∷ []) x = refl
  last-snoc (y ∷ z ∷ xs) x = last-snoc (z ∷ xs) x

  last-drop : (k : ℕ) (xs : List A) → suc k ≤ length xs → last (drop k xs) ≡ last xs
  last-drop zero xs h = refl
  last-drop (suc k) [] h = absurd (omega (arith, h))
  last-drop (suc k) (x ∷ []) h = absurd (omega (arith, h))
  last-drop (suc k) (x ∷ y ∷ xs) h = last-drop k (y ∷ xs) (omega (arith, h))

  -- What was pushed last is last, whatever the cap, if there is room for one.
  pub last-push_capped :
      (cap : ℕ) (xs : List A) (x : A) → 1 ≤ cap → last (push_capped cap xs x) ≡ some x
  unfolding push_capped
  last-push_capped cap xs x room =
      let ws : List A = xs ++ x ∷ [] in
      let one : length ws ≡ length xs + 1 = length-append xs (x ∷ []) in
      elim (Bool-cases (ltb cap (length ws))) [
        | inl e ↦ rw e (last-drop (length ws - cap) ws (omega (arith, one, room)) ∙ last-snoc xs x)
        | inr e ↦ rw e (last-snoc xs x)
      ]
