-- ===== src/Data/Workers/Whole.antt =====
-- Every turn of runWithConcurrency, and the results when no turn is left.
use federated_reserve.Prelude.{
  ℕ, zero, suc, ◌+◌, ◌*◌, ◌-◌, ◌<◌, ◌≡◌, refl, ap, inl, inr, Option, none, some, List, [], ◌∷◌,
  ◌==◌, nat_eq, length, min, arith, true, false, Bool-cases, All,
}
use federated_reserve.Data.Workers.{
  Worker, ready, busy, returned, Pool, get_elem?, worker_after, next_after, results_after, pick,
  place, turn, run_turns, ready_workers, start,
}
use federated_reserve.Data.Workers.Lists.{
  is_live, is_at, at_any, weight, total, at_any-place, is_at-place, total-place, at_any-total,
  get_elem?-some, get_elem?-none, total-ready_workers,
}

module _ {ℓ κ} {A : Type ℓ} {R : Type κ} (items : List A) (fn : A → R) where
  -- Each turn of the schedule is of a worker that has not returned.
  unfoldable pub AreLive : List ℕ → Pool A R → Type 0
  AreLive [] p = Unit
  AreLive (k ∷ ks) p = (is_live (pick k p.workers) ≡ true) × AreLive ks (turn items fn k p)

  -- A worker holds the item of its index.
  abbrev Holds : Worker A → Type ℓ
  Holds (busy i x) = get_elem? items i ≡ some x
  Holds ready = Unit
  Holds returned = Unit

  -- A result is there for every item that was taken up and is not held.
  IsKept : Pool A R → Type (ℓ ⊔ κ)
  IsKept p =
      (j : ℕ) (x : A)
      → get_elem? items j ≡ some x
      → j < p.next
      → at_any j p.workers ≡ false
      → p.results j ≡ some (fn x)

  left : Pool A R → ℕ
  left p = 2 * (length items - p.next) + total p.workers

  place-Holds :
      (k : ℕ) (v : Worker A) (ws : List (Worker A))
      → Holds v
      → All Holds ws
      → All Holds (place k v ws)
  place-Holds k v [] h a = a
  place-Holds zero v (w ∷ ws) h (b, a) = (h, a)
  place-Holds (suc k) v (w ∷ ws) h (b, a) = (b, place-Holds k v ws h a)

  pick-Holds : (k : ℕ) (ws : List (Worker A)) → All Holds ws → Holds (pick k ws)
  pick-Holds k [] a = tt
  pick-Holds zero (w ∷ ws) (b, a) = b
  pick-Holds (suc k) (w ∷ ws) (b, a) = pick-Holds k ws a

  after-Holds :
      (o : Option A) (next : ℕ) (w : Worker A)
      → get_elem? items next ≡ o
      → Holds (worker_after o next w)
  after-Holds (some x) next ready e = e
  after-Holds none next ready e = tt
  after-Holds none next (busy i x) e = tt
  after-Holds (some y) next (busy i x) e = tt
  after-Holds none next returned e = tt
  after-Holds (some y) next returned e = tt

  left-turn :
      (k : ℕ) (p : Pool A R)
      → is_live (pick k p.workers) ≡ true
      → suc (left (turn items fn k p)) ≡ left p
  unfolding turn left
  left-turn k p h =
      let placed =
        total-place k (worker_after (get_elem? items p.next) p.next (pick k p.workers)) p.workers
          h in
      by_worker (pick k p.workers) (get_elem? items p.next) _ refl h placed
    where
      by_worker :
          (w : Worker A) (o : Option A) (t : ℕ)
          → get_elem? items p.next ≡ o
          → is_live w ≡ true
          → t + weight w ≡ total p.workers + weight (worker_after o p.next w)
          → suc (2 * (length items - next_after p.next w) + t)
            ≡ 2 * (length items - p.next) + total p.workers
      by_worker ready (some x) t e l q = omega (arith, q, get_elem?-some items p.next e)
      by_worker ready none t e l q = omega (arith, q, get_elem?-none items p.next e)
      by_worker (busy i x) (some y) t e l q = omega (arith, q)
      by_worker (busy i x) none t e l q = omega (arith, q)
      by_worker returned o t e l q = absurd (ground (arith, l))

  turn-IsKept :
      (k : ℕ) (p : Pool A R)
      → is_live (pick k p.workers) ≡ true
      → All Holds p.workers
      → IsKept p
      → IsKept (turn items fn k p)
  unfolding turn IsKept
  turn-IsKept k p h a kept j x e below free =
      by_worker (pick k p.workers) (get_elem? items p.next) refl (at_any-place j k _ p.workers)
        (is_at-place j k _ p.workers h free) (pick-Holds k p.workers a) below
    where
      by_worker :
          (w : Worker A) (o : Option A)
          → get_elem? items p.next ≡ o
          → (is_at j w ≡ false
              → at_any j (
                  place k
                    (worker_after (get_elem? items p.next) p.next (pick k p.workers))
                    p.workers)
                ≡ false
              → at_any j p.workers ≡ false)
          → is_at j (worker_after o p.next w) ≡ false
          → Holds w
          → j < next_after p.next w
          → results_after fn p.results w j ≡ some (fn x)
      by_worker ready (some y) q back n held lt =
          kept j x e (ground (arith, n, lt)) (back refl free)
      by_worker ready none q back n held lt =
          kept j x e (omega (arith, get_elem?-some items j e, get_elem?-none items p.next q))
            (back refl free)
      by_worker (busy i y) o q back n held lt = elim (Bool-cases (j == i)) [
        | inl same ↦ rw same (ap some (ap fn (one_of same held)))
        | inr other ↦ rw other (kept j x e lt (back other free))
      ]
        where
          one_of : (j == i) ≡ true → get_elem? items i ≡ some y → y ≡ x
          one_of same there = ground (arith, same, there, e)
      by_worker returned o q back n held lt = kept j x e lt (back refl free)

  run_turns-left :
      (ks : List ℕ) (p : Pool A R)
      → AreLive ks p
      → length ks + left (run_turns items fn ks p) ≡ left p
  unfolding AreLive run_turns
  run_turns-left [] p h = omega arith
  run_turns-left (k ∷ ks) p (l, h) =
      omega (arith, run_turns-left ks (turn items fn k p) h, left-turn k p l)

  run_turns-IsKept :
      (ks : List ℕ) (p : Pool A R)
      → AreLive ks p
      → All Holds p.workers
      → IsKept p
      → IsKept (run_turns items fn ks p)
  unfolding AreLive run_turns turn
  run_turns-IsKept [] p h a kept = kept
  run_turns-IsKept (k ∷ ks) p (l, h) a kept =
      run_turns-IsKept ks (turn items fn k p) h
        (place-Holds k _ p.workers
          (after-Holds (get_elem? items p.next) p.next (pick k p.workers) refl) a)
        (turn-IsKept k p l a kept)

  ready_workers-Holds : (n : ℕ) → All Holds (ready_workers n)
  unfolding ready_workers
  ready_workers-Holds zero = tt
  ready_workers-Holds (suc n) = (tt, ready_workers-Holds n)

  -- In whatever order the workers take their turns, as soon as those that have not returned have
  -- taken two for each item and one for each worker, the result of every item is in its place.
  pub run_turns-fills :
      (concurrency : ℕ) (ks : List ℕ) (j : ℕ) (x : A)
      → AreLive ks (start items concurrency)
      → length ks ≡ 2 * length items + min concurrency (length items)
      → get_elem? items j ≡ some x
      → (run_turns items fn ks (start items concurrency)).results j ≡ some (fn x)
  unfolding start left IsKept
  run_turns-fills concurrency ks j x live enough e =
      let p : Pool A R = start items concurrency in
      let done = run_turns-left ks p live in
      let empty = total-ready_workers A (min concurrency (length items)) in
      run_turns-IsKept ks p live (ready_workers-Holds (min concurrency (length items)))
        (λ i y q below free. absurd (omega (arith, below))) j x e
        (omega (arith, done, enough, empty, get_elem?-some items j e))
        (at_any-total j _ (omega (arith, done, enough, empty)))
