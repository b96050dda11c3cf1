-- ===== src/Observer/Store/Runs/Recent.antt =====
-- What the store of packages/observer/src/store.ts shows of all that has come to it.
use federated_reserve.Prelude.{
  ℕ, suc, Option, none, some, List, [], ◌∷◌, ◌++◌, ◌≡◌, ◌∙◌, refl, sym, subst, if◌then◌else◌,
  Bool-cases, inl, inr, ◌==◌, nat_eq, string_eq, keep, append_assoc, append-nil,
}
use federated_reserve.Prelude.Dict.{lookup}
use federated_reserve.Shared.Platform.{Platform}
use federated_reserve.Observer.Types.{
  FedRateView, FedRateHistoryEntry, SwapExecutedPayload, ReflectionPayload,
}
use federated_reserve.Observer.Project.{Explorers}
use federated_reserve.Observer.Store.{ObserverStore, make_store, emit, ensure_state}
use federated_reserve.Observer.Store.Hydrate.{hydrate_from_memory}
use federated_reserve.Observer.Store.Snapshot.{
  snapshot, shock_snapshot, query_treasury, messages_per_minute,
}
use federated_reserve.Observer.Store.Operations.{
  ingest_indicator, ingest_fed_rate, ingest_negotiation_round, ingest_swap_executed,
  ingest_shock_injected, ingest_reflection, gc_shocks, fed_rate_history_cap, swap_history_cap,
}
use federated_reserve.Observer.Store.Runs.{
  Operation, indicator, fed_rate, round, swap, shock, reflect, mesh, hydrate, manifest,
  take_snapshot, take_shocks, query, apply, run,
}
use federated_reserve.Observer.Store.Runs.Core.{
  core, put_indicator-core, ensure_state-core, update_mesh-core, load_infts-core,
  hydrate_states-core, log_rate-core,
}
use federated_reserve.Observer.Store.Runs.Has.{
  changes, differs, Has, Has-swap, Has-reflect, Has-news, Has-repetition,
}

pub swaps_of : List (ℕ × Operation) → List SwapExecutedPayload
swaps_of [] = []
swaps_of ((_, swap payload) ∷ ops) = payload ∷ swaps_of ops
swaps_of (_ ∷ ops) = swaps_of ops

-- The rates that were announced, as they were received.
pub rates_of : Platform → List (ℕ × Operation) → List FedRateView
rates_of p [] = []
rates_of p ((now, fed_rate input) ∷ ops) =
    record {
      rate_bps = input.rate_bps;
      effective = input.effective;
      rationale = input.rationale;
      received_at = p.iso_string now;
    }
    ∷ rates_of p ops
rates_of p (_ ∷ ops) = rates_of p ops

-- The last rate, after an earlier one if any.
pub last_rate : Option FedRateView → List FedRateView → Option FedRateView
last_rate earlier [] = earlier
last_rate earlier (view ∷ views) = last_rate (some view) views

-- The last reflection of a state, after an earlier one if any.
pub last_reflection : ℕ → Option ReflectionPayload → List (ℕ × Operation) → Option ReflectionPayload
last_reflection fips earlier [] = earlier
last_reflection fips earlier ((_, reflect payload) ∷ ops) =
    last_reflection fips (if payload.state_fips == fips then some payload else earlier) ops
last_reflection fips earlier (_ ∷ ops) = last_reflection fips earlier ops

-- A store that shows these swaps, these rates with this one as the last, and these reflections.
pub record Shows (swaps : List SwapExecutedPayload) (history : List FedRateHistoryEntry)
    (rate : Option FedRateView) (reflections : ℕ → Option ReflectionPayload) (s : ObserverStore)
    : Type 0 where
  pub swapped : s.swaps ≡ keep swap_history_cap swaps
  pub logged : s.fed_rate_history ≡ keep fed_rate_history_cap history
  pub announced : s.latest_fed_rate ≡ rate
  pub reflected : (fips : ℕ) → lookup fips s.reflections ≡ reflections fips

module _ (p : Platform) (env : Explorers) where
  run-Has :
      (ops : List (ℕ × Operation)) (ss : List SwapExecutedPayload) (hs : List FedRateHistoryEntry)
      (n : ℕ) (r : Option FedRateView) (f : ℕ → Option ReflectionPayload) (s : ObserverStore)
      → Has ss hs n r f (core s)
      → Shows
          (ss ++ swaps_of ops)
          (hs ++ changes n r (rates_of p ops))
          (last_rate r (rates_of p ops))
          (λ fips. last_reflection fips (f fips) ops)
          (run p env ops s)
  unfolding run apply swaps_of rates_of last_rate changes last_reflection ingest_indicator
      ingest_fed_rate ingest_negotiation_round ingest_swap_executed ingest_shock_injected
      ingest_reflection hydrate_from_memory snapshot shock_snapshot query_treasury
      messages_per_minute gc_shocks emit
  run-Has [] ss hs n r f s h =
      rw (append-nil ss, append-nil hs)
        (record {
          swapped = h.swapped;
          logged = h.logged;
          announced = h.announced;
          reflected = h.reflected;
        })
  run-Has ((now, swap x) ∷ ops) ss hs n r f s h =
      rw⁻¹ (append_assoc ss (x ∷ []) (swaps_of ops))
        (run-Has ops (ss ++ x ∷ []) hs n r f _ (Has-swap ss hs n r f (core s) x h))
  run-Has ((now, reflect x) ∷ ops) ss hs n r f s h =
      run-Has ops ss hs n r _ _ (Has-reflect ss hs n r f (core s) x h)
  run-Has ((now, fed_rate input) ∷ ops) ss hs n r f s h =
      let view : FedRateView = record {
        rate_bps = input.rate_bps;
        effective = input.effective;
        rationale = input.rationale;
        received_at = p.iso_string now;
      } in
      elim (Bool-cases (differs r view)) [
        | inl e ↦ rw e (
            rw⁻¹
              (append_assoc hs (record { id = n; view = view } ∷ [])
                (changes (suc n) (some view) (rates_of p ops)))
              (run-Has ops ss (hs ++ record { id = n; view = view } ∷ []) (suc n) (some view) f _ (
                subst (Has ss (hs ++ record { id = n; view = view } ∷ []) (suc n) (some view) f)
                  (sym (log_rate-core view s)) (Has-news ss hs n r f (core s) view h e))))
        | inr e ↦ rw e (
            run-Has ops ss hs n (some view) f _ (
              subst (Has ss hs n (some view) f) (sym (log_rate-core view s))
                (Has-repetition ss hs n r f (core s) view h e)))
      ]
  run-Has ((now, indicator input) ∷ ops) ss hs n r f s h = run-Has ops ss hs n r f _ (
      subst (Has ss hs n r f)
        (sym (
          put_indicator-core p _ (ensure_state s input.state_fips)
          ∙ ensure_state-core p input.state_fips s))
        h)
  run-Has ((now, round x) ∷ ops) ss hs n r f s h = run-Has ops ss hs n r f _ h
  run-Has ((now, shock x) ∷ ops) ss hs n r f s h = run-Has ops ss hs n r f _ h
  run-Has ((now, mesh key peers) ∷ ops) ss hs n r f s h =
      run-Has ops ss hs n r f _
        (subst (Has ss hs n r f) (sym (update_mesh-core p now key peers s)) h)
  run-Has ((now, hydrate memory) ∷ ops) ss hs n r f s h =
      run-Has ops ss hs n r f _
        (subst (Has ss hs n r f) (sym (hydrate_states-core p env memory now s.states s)) h)
  run-Has ((now, manifest read) ∷ ops) ss hs n r f s h =
      run-Has ops ss hs n r f _ (subst (Has ss hs n r f) (sym (load_infts-core p read now s)) h)
  run-Has ((now, take_snapshot) ∷ ops) ss hs n r f s h = run-Has ops ss hs n r f _ h
  run-Has ((now, take_shocks) ∷ ops) ss hs n r f s h = run-Has ops ss hs n r f _ h
  run-Has ((now, query fips) ∷ ops) ss hs n r f s h =
      run-Has ops ss hs n r f _ (subst (Has ss hs n r f) (sym (ensure_state-core p fips s)) h)

  -- After whatever is asked of the observer, in whatever order, it shows the last 40 swaps in the
  -- order in which they came, the rate that was announced last, the last reflection of each state,
  -- and as the history of rates the last 24, numbered in order, of those that differ in the rate or
  -- in the date of effect from the rate announced before them.
  pub run-Shows :
      (ops : List (ℕ × Operation))
      → Shows
          (swaps_of ops)
          (changes 1 none (rates_of p ops))
          (last_rate none (rates_of p ops))
          (λ fips. last_reflection fips none ops)
          (run p env ops make_store)
  unfolding make_store
  run-Shows ops =
      run-Has ops [] [] 1 none (λ _. none) make_store
        (record {
          swapped = refl;
          logged = refl;
          numbered = refl;
          announced = refl;
          compared = λ view. refl;
          reflected = λ fips. refl;
        })
