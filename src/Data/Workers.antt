-- ===== src/Data/Workers.antt =====
-- packages/data-plane/src/rate-limit.ts: runWithConcurrency. A turn takes a worker to its next
-- suspension: it takes an item up, keeps the result of its item, or returns. `fn` is a parameter,
-- and an array of results is the function from the index.
mod Lists
pub mod Whole
use federated_reserve.Prelude.{
  ℕ, zero, suc, ◌+◌, ◌*◌, ◌-◌, Option, none, some, List, [], ◌∷◌, if◌then◌else◌, ◌==◌, nat_eq,
  length, min,
}

pub data Worker {ℓ} (A : Type ℓ) : Type ℓ where
  -- before `const i = next++`
  ready : Worker A
  -- waiting for `fn(item)`
  busy : ℕ → A → Worker A
  returned : Worker A

-- `next`, `results` and the workers.
pub record Pool {ℓ κ} (A : Type ℓ) (R : Type κ) : Type (ℓ ⊔ κ) where
  pub next : ℕ
  pub results : ℕ → Option R
  pub workers : List (Worker A)

-- `items[i]`
unfoldable pub get_elem? {ℓ} : {A : Type ℓ} → List A → ℕ → Option A
get_elem? [] i = none
get_elem? (x ∷ xs) zero = some x
get_elem? (x ∷ xs) (suc i) = get_elem? xs i

-- What a worker is after its turn, where there is such an item to take up.
abbrev pub worker_after {ℓ} : {A : Type ℓ} → Option A → ℕ → Worker A → Worker A
worker_after (some item) next ready = busy next item
worker_after none next ready = returned
worker_after item next (busy i x) = ready
worker_after item next returned = returned

abbrev pub next_after {ℓ} : {A : Type ℓ} → ℕ → Worker A → ℕ
next_after next ready = suc next
next_after next (busy i x) = next
next_after next returned = next

-- `results[i] = await fn(item)`
abbrev pub put {ℓ} : {R : Type ℓ} → ℕ → R → (ℕ → Option R) → ℕ → Option R
put i r results j = if j == i then some r else results j

abbrev pub results_after {ℓ κ} :
    {A : Type ℓ} {R : Type κ} → (A → R) → (ℕ → Option R) → Worker A → ℕ → Option R
results_after fn results ready = results
results_after fn results (busy i x) = put i (fn x) results
results_after fn results returned = results

abbrev pub pick {ℓ} : {A : Type ℓ} → ℕ → List (Worker A) → Worker A
pick k [] = returned
pick zero (w ∷ ws) = w
pick (suc k) (w ∷ ws) = pick k ws

abbrev pub place {ℓ} : {A : Type ℓ} → ℕ → Worker A → List (Worker A) → List (Worker A)
place k v [] = []
place zero v (w ∷ ws) = v ∷ ws
place (suc k) v (w ∷ ws) = w ∷ place k v ws

module _ {ℓ κ} {A : Type ℓ} {R : Type κ} (items : List A) (fn : A → R) where
  -- A turn of the k-th worker.
  unfoldable pub turn : ℕ → Pool A R → Pool A R
  unfolding get_elem?
  turn k p =
      let w = pick k p.workers in
      record {
        next = next_after p.next w;
        results = results_after fn p.results w;
        workers = place k (worker_after (get_elem? items p.next) p.next w) p.workers;
      }

  unfoldable pub run_turns : List ℕ → Pool A R → Pool A R
  unfolding turn
  run_turns [] p = p
  run_turns (k ∷ ks) p = run_turns ks (turn k p)

unfoldable pub ready_workers {ℓ} : {A : Type ℓ} → ℕ → List (Worker A)
ready_workers zero = []
ready_workers (suc n) = ready ∷ ready_workers n

-- The workers before their first turn.
unfoldable pub start {ℓ κ} : {A : Type ℓ} {R : Type κ} → List A → ℕ → Pool A R
unfolding ready_workers
start items concurrency = record {
  next = 0;
  results = λ i. none;
  workers = ready_workers (min concurrency (length items));
}
