-- ===== src/Observer/Store/Runs/Latest.antt =====
-- The events in the store of packages/observer/src/store.ts, and their numbers.
use federated_reserve.Prelude.{ℕ, arith, List, [], last, refl, Bool-cases, inl, inr}
use federated_reserve.Prelude.Numbered.{IsLatest, push_capped-IsLatest}
use federated_reserve.Shared.Platform.{Platform}
use federated_reserve.Observer.Types.{ObserverEvent, FedRateHistoryEntry}
use federated_reserve.Observer.Project.{Explorers}
use federated_reserve.Observer.Store.{ObserverStore, make_store, emit, event_cap}
use federated_reserve.Observer.Store.Operations.{log_rate, is_news, fed_rate_history_cap}
use federated_reserve.Observer.Store.Runs.{Operation, run}
use federated_reserve.Observer.Store.Runs.Changes.{
  Change, emits, shows, announces, negotiates, swaps, shocks, reflections, meshes, lists, stamps,
  prunes, run-preserves_Change,
}

-- The events are the last 240 of those that have been emitted, numbered from 1 on without a gap,
-- and the history the last 24 of the rates that have been logged.
abbrev pub KeepsLatest : ObserverStore → Type 0
KeepsLatest s =
    IsLatest (λ (e : ObserverEvent). e.id) event_cap s.next_event_id s.events
    × IsLatest (λ (e : FedRateHistoryEntry). e.id) fed_rate_history_cap s.next_history_id
        s.fed_rate_history

step : (p : Platform) (s t : ObserverStore) → Change p s t → KeepsLatest s → KeepsLatest t
unfolding emit log_rate
step p s _ (emits now payload) h = (
  push_capped-IsLatest _ event_cap s.next_event_id s.events
      (record { id = s.next_event_id; timestamp = p.iso_string now; payload = payload }) h.0 refl,
  h.1,
)
step p s _ (announces view) h = elim (Bool-cases (is_news (last s.fed_rate_history) view)) [
  | inl e ↦ rw e (
    h.0,
    push_capped-IsLatest _ fed_rate_history_cap s.next_history_id s.fed_rate_history
        (record { id = s.next_history_id; view = view }) h.1 refl,
  )
  | inr e ↦ rw e h
]
step p s _ (shows fips view judged) h = h
step p s _ (negotiates now payload) h = h
step p s _ (swaps payload) h = h
step p s _ (shocks m) h = h
step p s _ (reflections m) h = h
step p s _ (meshes m) h = h
step p s _ (lists m) h = h
step p s _ (stamps m) h = h
step p s _ (prunes ts) h = h

-- After whatever is asked of the observer, in whatever order, its events carry consecutive numbers
-- up to that of the last event that it emitted, and are all of those events or the last 240; its
-- history of rates carries consecutive numbers up to the last one, and is the whole or the last 24.
pub run-KeepsLatest :
    (p : Platform) (env : Explorers) (ops : List (ℕ × Operation))
    → KeepsLatest (run p env ops make_store)
unfolding make_store
run-KeepsLatest p env ops =
    let none_yet : IsLatest (λ (e : ObserverEvent). e.id) event_cap 1 [] = record {
      positive = omega arith;
      size = omega arith;
      counts = tt;
    } in
    run-preserves_Change p env KeepsLatest ops make_store (step p)
      (none_yet, record { positive = omega arith; size = omega arith; counts = tt })
