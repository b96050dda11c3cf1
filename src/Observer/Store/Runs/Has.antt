-- ===== src/Observer/Store/Runs/Has.antt =====
-- The history of rates of packages/observer/src/store.ts, and what one more swap, reflection or rate
-- makes of the fields.
use federated_reserve.Prelude.{
  ℕ, suc, Option, none, some, List, [], ◌∷◌, ◌++◌, ◌≡◌, ◌∙◌, refl, ap, not, ◌||◌, Bool, true, false,
  if◌then◌else◌, last, last-push_capped, ◌==◌, nat_eq, string_eq, keep, push_capped,
  push_capped-keep, arith,
}
use federated_reserve.Prelude.Dict.{lookup, insert, lookup-insert}
use federated_reserve.Observer.Types.{
  FedRateView, FedRateHistoryEntry, SwapExecutedPayload, ReflectionPayload,
}
use federated_reserve.Observer.Store.Operations.{is_news, fed_rate_history_cap, swap_history_cap}
use federated_reserve.Observer.Store.Runs.Core.{Core, log_core}

-- A rate that is not a repetition of the one before it.
abbrev pub differs : Option FedRateView → FedRateView → Bool
differs none view = true
differs (some old) view =
    not (old.rate_bps == view.rate_bps) || not (old.effective == view.effective)

-- The rates that are not repetitions, numbered from `n` on.
unfoldable pub changes : ℕ → Option FedRateView → List FedRateView → List FedRateHistoryEntry
changes n old [] = []
changes n old (view ∷ views) =
    let later = changes (suc n) (some view) views in
    let repeated = changes n (some view) views in
    if differs old view then record { id = n; view = view } ∷ later else repeated

-- The same of the fields alone, with the number that the next rate gets and what it is compared
-- with.
pub record Has (swaps : List SwapExecutedPayload) (history : List FedRateHistoryEntry) (next : ℕ)
    (rate : Option FedRateView) (reflections : ℕ → Option ReflectionPayload) (c : Core)
    : Type 0 where
  pub swapped : c.swaps ≡ keep swap_history_cap swaps
  pub logged : c.history ≡ keep fed_rate_history_cap history
  pub numbered : c.next ≡ next
  pub announced : c.rate ≡ rate
  pub compared : (view : FedRateView) → is_news (last c.history) view ≡ differs rate view
  pub reflected : (fips : ℕ) → lookup fips c.reflections ≡ reflections fips

pub Has-swap :
    (ss : List SwapExecutedPayload) (hs : List FedRateHistoryEntry) (n : ℕ) (r : Option FedRateView)
    (f : ℕ → Option ReflectionPayload) (c : Core) (x : SwapExecutedPayload)
    → Has ss hs n r f c
    → Has (ss ++ x ∷ []) hs n r f (record c { swaps = push_capped swap_history_cap c.swaps x })
Has-swap ss hs n r f c x h = record {
  swapped =
      ap (λ xs. push_capped swap_history_cap xs x) h.swapped
      ∙ push_capped-keep swap_history_cap ss x;
  logged = h.logged;
  numbered = h.numbered;
  announced = h.announced;
  compared = h.compared;
  reflected = h.reflected;
}

pub Has-reflect :
    (ss : List SwapExecutedPayload) (hs : List FedRateHistoryEntry) (n : ℕ) (r : Option FedRateView)
    (f : ℕ → Option ReflectionPayload) (c : Core) (x : ReflectionPayload)
    → Has ss hs n r f c
    → Has ss hs n r
        (λ fips. if x.state_fips == fips then some x else f fips)
        (record c { reflections = insert x.state_fips x c.reflections })
Has-reflect ss hs n r f c x h = record {
  swapped = h.swapped;
  logged = h.logged;
  numbered = h.numbered;
  announced = h.announced;
  compared = h.compared;
  reflected = λ fips.
      lookup-insert x.state_fips fips x c.reflections
      ∙ ap (λ o. if x.state_fips == fips then some x else o) (h.reflected fips);
}

-- What differs from a rate differs from a repetition of it.
differs-repetition :
    (old view new : FedRateView)
    → differs (some old) view ≡ false
    → differs (some old) new ≡ differs (some view) new
differs-repetition old view new h =
    ap (λ n. not (n == new.rate_bps) || not (old.effective == new.effective))
      ((nat_eq.same_iff old.rate_bps view.rate_bps).0 (both_true _ _ h).0)
    ∙ ap (λ t. not (view.rate_bps == new.rate_bps) || not (t == new.effective))
        ((string_eq.same_iff old.effective view.effective).0 (both_true _ _ h).1)
  where
    both_true : (a b : Bool) → (not a || not b) ≡ false → (a ≡ true) × (b ≡ true)
    both_true true true e = (refl, refl)
    both_true true false e = cc
    both_true false b e = cc

-- A rate that is news is logged under the next number.
pub Has-news :
    (ss : List SwapExecutedPayload) (hs : List FedRateHistoryEntry) (n : ℕ) (r : Option FedRateView)
    (f : ℕ → Option ReflectionPayload) (c : Core) (view : FedRateView)
    → Has ss hs n r f c
    → differs r view ≡ true
    → Has ss (hs ++ record { id = n; view = view } ∷ []) (suc n) (some view) f (log_core view c)
Has-news ss hs n r f c view h news =
    rw (h.compared view, news)
      (record {
        swapped = h.swapped;
        logged =
            ap (λ m. push_capped fed_rate_history_cap c.history (record { id = m; view = view }))
              h.numbered
            ∙ ap (λ xs. push_capped fed_rate_history_cap xs (record { id = n; view = view }))
                h.logged
            ∙ push_capped-keep fed_rate_history_cap hs (record { id = n; view = view });
        numbered = ap suc h.numbered;
        announced = refl;
        compared = λ new.
            ap (λ o. is_news o new)
              (last-push_capped fed_rate_history_cap c.history (record { id = c.next; view = view })
                (omega arith));
        reflected = h.reflected;
      })

pub Has-repetition :
    (ss : List SwapExecutedPayload) (hs : List FedRateHistoryEntry) (n : ℕ) (r : Option FedRateView)
    (f : ℕ → Option ReflectionPayload) (c : Core) (view : FedRateView)
    → Has ss hs n r f c
    → differs r view ≡ false
    → Has ss hs n (some view) f (log_core view c)
Has-repetition ss hs n none f c view h same = cc
Has-repetition ss hs n (some old) f c view h same =
    rw (h.compared view, same)
      (record {
        swapped = h.swapped;
        logged = h.logged;
        numbered = h.numbered;
        announced = refl;
        compared = λ new. h.compared new ∙ differs-repetition old view new same;
        reflected = h.reflected;
      })
