-- ===== src/Data/Workers/Lists.antt =====
-- The workers of runWithConcurrency as a list: a turn of one of them, and the turns that are left.
use federated_reserve.Prelude.{
  ℕ, zero, suc, ◌+◌, ◌≤◌, ◌<◌, ◌≡◌, refl, none, some, List, [], ◌∷◌, ◌==◌, nat_eq, length, arith,
  Bool, true, false, ◌||◌,
}
use federated_reserve.Data.Workers.{
  Worker, ready, busy, returned, get_elem?, pick, place, ready_workers,
}

module _ {ℓ} {A : Type ℓ} where
  abbrev pub is_live : Worker A → Bool
  is_live returned = false
  is_live _ = true

  abbrev pub is_at : ℕ → Worker A → Bool
  is_at j (busy i x) = j == i
  is_at j _ = false

  unfoldable pub at_any : ℕ → List (Worker A) → Bool
  at_any j [] = false
  at_any j (w ∷ ws) = is_at j w || at_any j ws

  -- The turns that a worker still takes, but for the items that nobody has taken up.
  abbrev pub weight : Worker A → ℕ
  weight ready = 1
  weight (busy i x) = 2
  weight returned = 0

  unfoldable pub total : List (Worker A) → ℕ
  total [] = 0
  total (w ∷ ws) = weight w + total ws

  pub at_any-place :
      (j k : ℕ) (v : Worker A) (ws : List (Worker A))
      → is_at j (pick k ws) ≡ false
      → at_any j (place k v ws) ≡ false
      → at_any j ws ≡ false
  unfolding at_any
  at_any-place j k v [] h e = refl
  at_any-place j zero v (w ∷ ws) h e = ground (arith, h, e)
  at_any-place j (suc k) v (w ∷ ws) h e =
      let rest = at_any-place j k v ws h in ground (arith, rest, e)

  pub is_at-place :
      (j k : ℕ) (v : Worker A) (ws : List (Worker A))
      → is_live (pick k ws) ≡ true
      → at_any j (place k v ws) ≡ false
      → is_at j v ≡ false
  unfolding at_any
  is_at-place j k v [] h e = absurd (ground (arith, h))
  is_at-place j zero v (w ∷ ws) h e = ground (arith, e)
  is_at-place j (suc k) v (w ∷ ws) h e = is_at-place j k v ws h (ground (arith, e))

  pub total-place :
      (k : ℕ) (v : Worker A) (ws : List (Worker A))
      → is_live (pick k ws) ≡ true
      → total (place k v ws) + weight (pick k ws) ≡ total ws + weight v
  unfolding total
  total-place k v [] h = absurd (ground (arith, h))
  total-place zero v (w ∷ ws) h = omega arith
  total-place (suc k) v (w ∷ ws) h = omega (arith, total-place k v ws h)

  pub at_any-total : (j : ℕ) (ws : List (Worker A)) → total ws ≡ 0 → at_any j ws ≡ false
  unfolding at_any total
  at_any-total j [] h = refl
  at_any-total j (ready ∷ ws) h = absurd (omega (arith, h))
  at_any-total j (busy i x ∷ ws) h = absurd (omega (arith, h))
  at_any-total j (returned ∷ ws) h = at_any-total j ws (omega (arith, h))

  pub get_elem?-some : (xs : List A) (j : ℕ) {x : A} → get_elem? xs j ≡ some x → j < length xs
  unfolding get_elem?
  get_elem?-some [] j h = absurd (ground (arith, h))
  get_elem?-some (y ∷ xs) zero h = omega arith
  get_elem?-some (y ∷ xs) (suc j) h = omega (arith, get_elem?-some xs j h)

  pub get_elem?-none : (xs : List A) (j : ℕ) → get_elem? xs j ≡ none → length xs ≤ j
  unfolding get_elem?
  get_elem?-none [] j h = omega arith
  get_elem?-none (y ∷ xs) zero h = absurd (ground (arith, h))
  get_elem?-none (y ∷ xs) (suc j) h = omega (arith, get_elem?-none xs j h)

pub total-ready_workers {ℓ} : (A : Type ℓ) (n : ℕ) → total (ready_workers {A = A} n) ≡ n
unfolding total ready_workers
total-ready_workers A zero = refl
total-ready_workers A (suc n) = omega (arith, total-ready_workers A n)
