-- ===== src/Prelude/DictSort.antt =====
-- The entries of a dictionary in another order.
use Prim.Native.Nat.{suc}
use mathlib.Core.Path.{◌≡◌, refl, ap, ◌∙◌}
use mathlib.Core.Bool.{Bool}
use mathlib.Core.Logic.{inl, inr}
use mathlib.Core.Option.{none, some}
use mathlib.Core.List.{[], ◌∷◌}
use native.Mathlib.Omega.{arith}
use federated_reserve.Prelude.Tests.{if◌then◌else◌, Eq, ◌==◌, Bool-cases}
use federated_reserve.Prelude.Lists.{length}
use federated_reserve.Prelude.Sort.{place, sort}
use federated_reserve.Prelude.Dict.{
  Dict, lookup, erase, IsNodup, Entries, weigh, weigh-erase, lookup-erase,
}

-- Sorting the entries of a map keeps what its keys stand for.
module _ {ℓ κ} {K : Type ℓ} {V : Type κ} ⦃e : Eq K⦄ (before : (K × V) → (K × V) → Bool) where
  lookup-place :
      (k j : K) (v : V) (m : Dict K V)
      → lookup j m ≡ none
      → lookup k (place before (j, v) m) ≡ (if j == k then some v else lookup k m)
  unfolding place
  lookup-place k j v [] h = refl
  lookup-place k j v ((i, w) ∷ m) h = elim (Bool-cases (before (j, v) (i, w))) [
    | inl first ↦ rw first refl
    | inr later ↦
        let ih : lookup k (place before (j, v) m) ≡ (if j == k then some v else lookup k m) =
          lookup-place k j v m (ground arith) in
        rw later (ground (arith, ih, h, e.same_iff i j, e.same_iff i k, e.same_iff j k))
  ]

  place-IsNodup :
      (j : K) (v : V) (m : Dict K V)
      → lookup j m ≡ none
      → IsNodup m
      → IsNodup (place before (j, v) m)
  unfolding place
  place-IsNodup j v [] h n = (refl, tt)
  place-IsNodup j v ((i, w) ∷ m) h (n, ns) = elim (Bool-cases (before (j, v) (i, w))) [
    | inl first ↦ rw first (h, (n, ns))
    | inr later ↦ rw later (
      lookup-place i j v m (ground arith) ∙ ground (arith, h, n, e.same_iff i j, e.same_iff j i),
      place-IsNodup j v m (ground arith) ns,
    )
  ]

  pub lookup-sort : (k : K) (m : Dict K V) → IsNodup m → lookup k (sort before m) ≡ lookup k m
  unfolding sort
  lookup-sort k [] n = refl
  lookup-sort k ((j, v) ∷ m) (n, ns) =
      lookup-place k j v (sort before m) (lookup-sort j m ns ∙ n)
      ∙ ap (λ o. if j == k then some v else o) (lookup-sort k m ns)

  pub sort-IsNodup : (m : Dict K V) → IsNodup m → IsNodup (sort before m)
  unfolding sort
  sort-IsNodup [] n = tt
  sort-IsNodup ((j, v) ∷ m) (n, ns) =
      place-IsNodup j v (sort before m) (lookup-sort j m ns ∙ n) (sort-IsNodup m ns)

weigh_one {ℓ κ} : {K : Type ℓ} {V : Type κ} (m : Dict K V) → weigh (λ _. 1) m ≡ length m
weigh_one [] = refl
weigh_one ((k, v) ∷ m) = omega (arith, weigh_one m)

module _ {ℓ κ} {K : Type ℓ} {V : Type κ} ⦃e : Eq K⦄ where
  -- A key that is there is deleted with its one entry.
  pub length-erase_found :
      (k : K) (v : V) (m : Dict K V)
      → IsNodup m
      → lookup k m ≡ some v
      → suc (length (erase k m)) ≡ length m
  length-erase_found k v m n h =
      omega (arith, weigh-erase (λ _. 1) k v m n h, weigh_one m, weigh_one (erase k m))

  -- The entries of `part` are entries of `m`.
  abbrev pub IsPart : Dict K V → Dict K V → Type κ
  IsPart part m = Entries (λ k v. lookup k m ≡ some v) part

  pub IsPart-cons :
      (j : K) (w : V) (part m : Dict K V)
      → lookup j part ≡ none
      → IsPart part m
      → IsPart part ((j, w) ∷ m)
  IsPart-cons j w [] m n h = tt
  IsPart-cons j w ((k, v) ∷ part) m n (found, h) = (
    ground (arith, found, n, e.same_iff j k, e.same_iff k j),
    IsPart-cons j w part m (ground arith) h,
  )

  pub IsPart-self : (m : Dict K V) → IsNodup m → IsPart m m
  IsPart-self [] n = tt
  IsPart-self ((k, v) ∷ m) (n, ns) =
      (ground (arith, e.same_iff k k), IsPart-cons k v m m n (IsPart-self m ns))

  pub IsPart-erase :
      (j : K) (part m : Dict K V) → lookup j part ≡ none → IsPart part m → IsPart part (erase j m)
  IsPart-erase j [] m n h = tt
  IsPart-erase j ((k, v) ∷ part) m n (found, h) = (
    lookup-erase j k m ∙ ground (arith, found, n, e.same_iff j k, e.same_iff k j),
    IsPart-erase j part m (ground arith) h,
  )

  pub IsPart-same :
      (part m n : Dict K V) → ((k : K) → lookup k n ≡ lookup k m) → IsPart part m → IsPart part n
  IsPart-same [] m n same h = tt
  IsPart-same ((k, v) ∷ part) m n same (found, h) = (same k ∙ found, IsPart-same part m n same h)
