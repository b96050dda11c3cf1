-- ===== src/Observer/Store/Runs/Coherent.antt =====
-- The negotiations in the store of packages/observer/src/store.ts.
use federated_reserve.Prelude.{ℕ, List, last, Bool-cases, inl, inr}
use federated_reserve.Shared.Platform.{Platform}
use federated_reserve.Observer.Project.{Explorers}
use federated_reserve.Observer.Store.{ObserverStore, make_store, emit}
use federated_reserve.Observer.Store.Negotiations.{record_round}
use federated_reserve.Observer.Store.Negotiations.Coherent.{
  IsCoherent, AllCoherent, record_round-AllCoherent, trim_negotiations-Entries,
}
use federated_reserve.Observer.Store.Operations.{log_rate, is_news}
use federated_reserve.Observer.Store.Runs.{Operation, run}
use federated_reserve.Observer.Store.Runs.Changes.{
  Change, emits, shows, announces, negotiates, swaps, shocks, reflections, meshes, lists, stamps,
  prunes, run-preserves_Change,
}

step :
    (p : Platform) (s t : ObserverStore)
    → Change p s t
    → AllCoherent s.negotiations
    → AllCoherent t.negotiations
unfolding emit log_rate
step p s _ (emits now payload) h = h
step p s _ (announces view) h = elim (Bool-cases (is_news (last s.fed_rate_history) view)) [
  | inl e ↦ rw e h
  | inr e ↦ rw e h
]
step p s _ (negotiates now payload) h =
    trim_negotiations-Entries p IsCoherent now (record_round s.negotiations payload)
      (record_round-AllCoherent s.negotiations payload h)
step p s _ (shows fips view judged) h = h
step p s _ (swaps payload) h = h
step p s _ (shocks m) h = h
step p s _ (reflections m) h = h
step p s _ (meshes m) h = h
step p s _ (lists m) h = h
step p s _ (stamps m) h = h
step p s _ (prunes ts) h = h

-- After whatever is asked of the observer, in whatever order, a negotiation that it keeps is as its
-- rounds make it: they are of its task, its status is that of the last of them that is terminal, or
-- open, its times are those of the first and of the last, and its participants are listed once each
-- and hold whoever spoke or was spoken to.
pub run-AllCoherent :
    (p : Platform) (env : Explorers) (ops : List (ℕ × Operation))
    → AllCoherent (run p env ops make_store).negotiations
unfolding make_store
run-AllCoherent p env ops =
    run-preserves_Change p env (λ s. AllCoherent s.negotiations) ops make_store (step p) tt
