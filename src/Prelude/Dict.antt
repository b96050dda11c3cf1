-- ===== src/Prelude/Dict.antt =====
-- A JavaScript `Map` as an association list in insertion order, over keys that `===` compares.
use Prim.Native.Nat.{ℕ, suc, ◌+◌, ◌≤◌}
use mathlib.Core.Path.{◌≡◌, refl, subst, ◌∙◌}
use mathlib.Core.Logic.{inl, inr}
use mathlib.Core.Option.{Option, none, some}
use mathlib.Core.List.{List, [], ◌∷◌}
use native.Mathlib.Omega.{arith}
use federated_reserve.Prelude.Tests.{if◌then◌else◌, Eq, ◌==◌, Bool-cases}
use federated_reserve.Prelude.Lists.{length}

abbrev pub Dict {ℓ κ} : Type ℓ → Type κ → Type (ℓ ⊔ κ)
Dict K V = List (K × V)

module _ {ℓ κ} {K : Type ℓ} {V : Type κ} ⦃e : Eq K⦄ where
  -- `m.get(k)`
  abbrev pub lookup : K → Dict K V → Option V
  lookup k [] = none
  lookup k ((j, v) ∷ m) = if j == k then some v else lookup k m

  -- `m.set(k, v)`: an old key keeps its place.
  abbrev pub insert : K → V → Dict K V → Dict K V
  insert k v [] = (k, v) ∷ []
  insert k v ((j, w) ∷ m) = if j == k then (k, v) ∷ m else (j, w) ∷ insert k v m

  -- `m.delete(k)`
  abbrev pub erase : K → Dict K V → Dict K V
  erase k [] = []
  erase k ((j, w) ∷ m) = if j == k then erase k m else (j, w) ∷ erase k m

  pub lookup-insert :
      (k j : K) (v : V) (m : Dict K V)
      → lookup j (insert k v m) ≡ (if k == j then some v else lookup j m)
  lookup-insert k j v [] = refl
  lookup-insert k j v ((i, w) ∷ m) =
      ground (arith, e.same_iff k j, e.same_iff i k, e.same_iff i j, lookup-insert k j v m)

  pub lookup-erase :
      (k j : K) (m : Dict K V) → lookup j (erase k m) ≡ (if k == j then none else lookup j m)
  lookup-erase k j [] = ground arith
  lookup-erase k j ((i, w) ∷ m) =
      ground (arith, e.same_iff k j, e.same_iff i k, e.same_iff i j, lookup-erase k j m)

  pub length-erase : (k : K) (m : Dict K V) → length (erase k m) ≤ length m
  length-erase k [] = omega arith
  length-erase k ((j, w) ∷ m) = ground (arith, length-erase k m)

  pub length-insert : (k : K) (v : V) (m : Dict K V) → length (insert k v m) ≤ suc (length m)
  length-insert k v [] = omega arith
  length-insert k v ((j, w) ∷ m) = ground (arith, length-insert k v m)

-- No key is listed twice.
abbrev pub IsNodup {ℓ κ} : {K : Type ℓ} {V : Type κ} ⦃e : Eq K⦄ → Dict K V → Type κ
IsNodup [] = Unit
IsNodup ((k, _) ∷ m) = (lookup k m ≡ none) × IsNodup m

-- The sum of a measure over the values.
abbrev pub weigh {ℓ κ} : {K : Type ℓ} {V : Type κ} → (V → ℕ) → Dict K V → ℕ
weigh f [] = 0
weigh f ((_, v) ∷ m) = f v + weigh f m

module _ {ℓ κ} {K : Type ℓ} {V : Type κ} ⦃e : Eq K⦄ where
  pub insert-IsNodup : (k : K) (v : V) (m : Dict K V) → IsNodup m → IsNodup (insert k v m)
  insert-IsNodup k v [] h = (refl, tt)
  insert-IsNodup k v ((j, w) ∷ m) (n, h) = elim (Bool-cases (j == k)) [
    | inl same ↦ rw same (subst (λ z. lookup z m ≡ none) ((e.same_iff j k).0 same) n, h)
    | inr other ↦ rw other (
      lookup-insert k j v m ∙ ground (arith, e.same_iff k j, e.same_iff j k),
      insert-IsNodup k v m h,
    )
  ]

  pub erase-IsNodup : (k : K) (m : Dict K V) → IsNodup m → IsNodup (erase k m)
  erase-IsNodup k [] h = tt
  erase-IsNodup k ((j, w) ∷ m) (n, h) = elim (Bool-cases (j == k)) [
    | inl same ↦ rw same (erase-IsNodup k m h)
    | inr other ↦
        rw other
          (lookup-erase k j m ∙ ground (arith, e.same_iff k j, e.same_iff j k), erase-IsNodup k m h)
  ]

module _ {ℓ κ} {K : Type ℓ} {V : Type κ} ⦃e : Eq K⦄ (f : V → ℕ) (k : K) where
  pub weigh-insert_new :
      (v : V) (m : Dict K V) → lookup k m ≡ none → weigh f (insert k v m) ≡ weigh f m + f v
  weigh-insert_new v [] h = omega arith
  weigh-insert_new v ((j, w) ∷ m) h = ground (arith, weigh-insert_new v m)

  pub weigh-insert :
      (v old : V) (m : Dict K V)
      → lookup k m ≡ some old
      → weigh f (insert k v m) + f old ≡ weigh f m + f v
  weigh-insert v old [] h = cc
  weigh-insert v old ((j, w) ∷ m) h = ground (arith, weigh-insert v old m)

  pub weigh-erase_absent : (m : Dict K V) → lookup k m ≡ none → weigh f (erase k m) ≡ weigh f m
  weigh-erase_absent [] h = refl
  weigh-erase_absent ((j, w) ∷ m) h = ground (arith, weigh-erase_absent m)

  pub weigh-erase :
      (old : V) (m : Dict K V)
      → IsNodup m
      → lookup k m ≡ some old
      → weigh f (erase k m) + f old ≡ weigh f m
  weigh-erase old [] n h = cc
  weigh-erase old ((j, w) ∷ m) (n, ns) h = elim (Bool-cases (j == k)) [
    | inl same ↦
        let absent : lookup k m ≡ none =
          subst (λ z. lookup z m ≡ none) ((e.same_iff j k).0 same) n in
        ground (arith, weigh-erase_absent m absent)
    | inr other ↦ ground (arith, weigh-erase old m ns)
  ]

-- `[...m.values()]`
abbrev pub values {ℓ κ} : {K : Type ℓ} {V : Type κ} → Dict K V → List V
values [] = []
values ((_, v) ∷ m) = v ∷ values m

-- `P` holds of every key with its value.
abbrev pub Entries {ℓ κ μ} : {K : Type ℓ} {V : Type κ} → (K → V → Type μ) → Dict K V → Type μ
Entries P [] = Unit
Entries P ((k, v) ∷ m) = P k v × Entries P m

module _ {ℓ κ μ} {K : Type ℓ} {V : Type κ} ⦃e : Eq K⦄ (P : K → V → Type μ) where
  pub insert-Entries :
      (k : K) (v : V) (m : Dict K V) → P k v → Entries P m → Entries P (insert k v m)
  insert-Entries k v [] p h = (p, tt)
  insert-Entries k v ((j, w) ∷ m) p (q, h) = elim (Bool-cases (j == k)) [
    | inl same ↦ rw same (p, h)
    | inr other ↦ rw other (q, insert-Entries k v m p h)
  ]

  pub erase-Entries : (k : K) (m : Dict K V) → Entries P m → Entries P (erase k m)
  erase-Entries k [] h = tt
  erase-Entries k ((j, w) ∷ m) (q, h) = elim (Bool-cases (j == k)) [
    | inl same ↦ rw same (erase-Entries k m h)
    | inr other ↦ rw other (q, erase-Entries k m h)
  ]

  pub lookup-Entries : (k : K) (v : V) (m : Dict K V) → Entries P m → lookup k m ≡ some v → P k v
  lookup-Entries k v [] h found = cc
  lookup-Entries k v ((j, w) ∷ m) (q, h) found = elim (Bool-cases (j == k)) [
    | inl same ↦
        let value : w ≡ v = ground arith in
        subst (λ i. P i v) ((e.same_iff j k).0 same) (subst (P j) value q)
    | inr other ↦ lookup-Entries k v m h (ground arith)
  ]
