-- ===== src/Observer/Store/Runs/Judged.antt =====
-- The colours of the states in the store of packages/observer/src/store.ts.
use federated_reserve.Prelude.{ℕ, List, [], ◌∷◌, last, nat_eq, refl, Bool-cases, inl, inr}
use federated_reserve.Prelude.Dict.{Dict, Entries, insert-Entries}
use federated_reserve.Shared.Platform.{Platform}
use federated_reserve.Shared.States.{StateInfo, states}
use federated_reserve.Observer.Types.{StateDashboardView}
use federated_reserve.Observer.Health.{derive_health}
use federated_reserve.Observer.Project.{Explorers}
use federated_reserve.Observer.Store.{
  ObserverStore, make_store, emit, blank_states, blank_view, is_federal,
}
use federated_reserve.Observer.Store.Operations.{log_rate, is_news}
use federated_reserve.Observer.Store.Runs.{Operation, run}
use federated_reserve.Observer.Store.Runs.Changes.{
  IsJudged, Change, emits, shows, announces, negotiates, swaps, shocks, reflections, meshes, lists,
  stamps, prunes, run-preserves_Change,
}

abbrev pub AllJudged : ObserverStore → Type 0
AllJudged s = Entries (λ _ view. IsJudged view) s.states

step : (p : Platform) (s t : ObserverStore) → Change p s t → AllJudged s → AllJudged t
unfolding emit log_rate
step p s _ (emits now payload) h = h
step p s _ (announces view) h = elim (Bool-cases (is_news (last s.fed_rate_history) view)) [
  | inl e ↦ rw e h
  | inr e ↦ rw e h
]
step p s _ (shows fips view judged) h = insert-Entries _ fips view s.states judged h
step p s _ (negotiates now payload) h = h
step p s _ (swaps payload) h = h
step p s _ (shocks m) h = h
step p s _ (reflections m) h = h
step p s _ (meshes m) h = h
step p s _ (lists m) h = h
step p s _ (stamps m) h = h
step p s _ (prunes ts) h = h

blank_states-Judged :
    (infos : List StateInfo) (m : Dict ℕ StateDashboardView)
    → Entries (λ _ view. IsJudged view) m
    → Entries (λ _ view. IsJudged view) (blank_states infos m)
unfolding blank_states derive_health
blank_states-Judged [] m h = h
blank_states-Judged (info ∷ rest) m h = elim (Bool-cases (is_federal info.tier)) [
  | inl e ↦ rw e (blank_states-Judged rest m h)
  | inr e ↦
      rw e (blank_states-Judged rest _ (insert-Entries _ info.fips (blank_view info) m refl h))
]

-- After whatever is asked of the observer, in whatever order, the colour of every state that it
-- keeps is the one that its reserve ratio and its last unemployment value give, whichever of the
-- two came last and from wherever it came.
pub run-AllJudged :
    (p : Platform) (env : Explorers) (ops : List (ℕ × Operation))
    → AllJudged (run p env ops make_store)
unfolding make_store
run-AllJudged p env ops =
    run-preserves_Change p env AllJudged ops make_store (step p) (blank_states-Judged states [] tt)
