-- ===== src/Observer/Store/Runs/Changes.antt =====
-- The elementary changes that the operations of packages/observer/src/store.ts consist of.
use federated_reserve.Prelude.{
  ℕ, String, Option, none, some, List, [], ◌∷◌, refl, Bool-cases, inl, inr, ◌≡◌, push_capped,
  nat_eq, string_eq,
}
use federated_reserve.Prelude.Dict.{Dict, lookup, insert}
use federated_reserve.Shared.Platform.{Platform}
use federated_reserve.Shared.States.{StateInfo, lookup_state_by_fips}
use federated_reserve.Observer.Types.{
  Payload, StateDashboardView, IndicatorEntry, FedRateView, NegotiationRoundPayload,
  SwapExecutedPayload, ShockInjectedPayload, ReflectionPayload, InftManifestEntry, InftManifest,
}
use federated_reserve.Observer.Health.{derive_health}
use federated_reserve.Observer.Project.{Explorers}
use federated_reserve.Observer.Store.{
  ObserverStore, MeshView, emit, ensure_state, adopt, known_or_adopted, is_federal, blank_view,
}
use federated_reserve.Observer.Store.Negotiations.{record_round, trim_negotiations}
use federated_reserve.Observer.Store.Operations.{
  ingest_indicator, ingest_fed_rate, ingest_negotiation_round, ingest_swap_executed,
  ingest_shock_injected, ingest_reflection, update_mesh, put_indicator, log_rate, same_mesh,
  gc_shocks, unemployment_of, with_health, see_indicator, swap_history_cap,
}
use federated_reserve.Observer.Store.Hydrate.{
  MemoryStateFile, FileRead, absent, unreadable, content, hydrate_from_memory, hydrate_states,
  hydrate_state, hydrate_view, load_infts, is_stamped, stamp_of,
}
use federated_reserve.Observer.Store.Snapshot.{
  snapshot, shock_snapshot, query_treasury, messages_per_minute,
}
use federated_reserve.Observer.Store.Runs.{
  Operation, indicator, fed_rate, round, swap, shock, reflect, mesh, hydrate, manifest,
  take_snapshot, take_shocks, query, apply, run, run-preserves,
}

-- The colour of a state is that of its reserve ratio and of its last unemployment.
abbrev pub IsJudged : StateDashboardView → Type 0
IsJudged view = view.health ≡ derive_health view.reserve_ratio (unemployment_of view)

pub data Change (p : Platform) : ObserverStore → ObserverStore → Type 0 where
  emits : {s : ObserverStore} (now : ℕ) (payload : Payload) → Change p s (emit p now payload s)
  shows :
      {s : ObserverStore} (fips : ℕ) (view : StateDashboardView)
      → IsJudged view
      → Change p s (record s { states = insert fips view s.states })
  announces :
      {s : ObserverStore} (view : FedRateView)
      → Change p s (log_rate view (record s { latest_fed_rate = some view }))
  negotiates :
      {s : ObserverStore} (now : ℕ) (payload : NegotiationRoundPayload)
      → Change p s (record s {
        negotiations = trim_negotiations p now (record_round s.negotiations payload);
      })
  swaps :
      {s : ObserverStore} (payload : SwapExecutedPayload)
      → Change p s (record s { swaps = push_capped swap_history_cap s.swaps payload })
  shocks :
      {s : ObserverStore} (m : Dict String ShockInjectedPayload)
      → Change p s (record s { shocks = m })
  reflections :
      {s : ObserverStore} (m : Dict ℕ ReflectionPayload) → Change p s (record s { reflections = m })
  meshes : {s : ObserverStore} (m : MeshView) → Change p s (record s { mesh = m })
  lists : {s : ObserverStore} (m : List InftManifestEntry) → Change p s (record s { infts = m })
  stamps :
      {s : ObserverStore} (stamp : Option String)
      → Change p s (record s { last_inft_manifest_stamp = stamp })
  prunes : {s : ObserverStore} (ts : List ℕ) → Change p s (record s { event_times = ts })

pub data Changes (p : Platform) : ObserverStore → ObserverStore → Type 0 where
  done : {s : ObserverStore} → Changes p s s
  after : {s t u : ObserverStore} → Changes p s t → Change p t u → Changes p s u

-- What every change preserves, a sequence of changes preserves.
pub Changes-preserve {ℓ} :
    (p : Platform) (P : ObserverStore → Type ℓ) {s t : ObserverStore}
    → ((a b : ObserverStore) → Change p a b → P a → P b)
    → Changes p s t
    → P s
    → P t
Changes-preserve p P step done h = h
Changes-preserve p P step (after cs c) h = step _ _ c (Changes-preserve p P step cs h)

module _ (p : Platform) where
  join : {s t u : ObserverStore} → Changes p s t → Changes p t u → Changes p s u
  join cs done = cs
  join cs (after ds d) = after (join cs ds) d

  one : {s t : ObserverStore} → Change p s t → Changes p s t
  one c = after done c

  ensure_state-Changes : (fips : ℕ) (s : ObserverStore) → Changes p s (ensure_state s fips).0
  unfolding ensure_state derive_health known_or_adopted lookup_state_by_fips
  ensure_state-Changes fips s = known (lookup fips s.states)
    where
      adopted : (o : Option StateInfo) → Changes p s (adopt s fips o).0
      adopted none = done
      adopted (some meta) = elim (Bool-cases (is_federal meta.tier)) [
        | inl e ↦ rw e done
        | inr e ↦ rw e (one (shows fips (blank_view meta) refl))
      ]

      known : (o : Option StateDashboardView) → Changes p s (known_or_adopted s fips o).0
      known (some view) = done
      known none = adopted (lookup_state_by_fips fips)

  put_indicator-Changes :
      (entry : IndicatorEntry) {s : ObserverStore} (r : ObserverStore × Option StateDashboardView)
      → Changes p s r.0
      → Changes p s (put_indicator entry r)
  unfolding put_indicator see_indicator with_health
  put_indicator-Changes entry (s, none) h = h
  put_indicator-Changes entry (s, some view) h =
      after h (shows entry.input.state_fips (see_indicator entry view) refl)

  update_mesh-Changes :
      (now : ℕ) (key : String) (peers : List String) (s : ObserverStore)
      → Changes p s (update_mesh p now key peers s)
  unfolding update_mesh
  update_mesh-Changes now key peers s = elim (Bool-cases (same_mesh s.mesh key peers)) [
    | inl e ↦ rw e (one (meshes _))
    | inr e ↦ rw e (after (one (meshes _)) (emits now _))
  ]

  load_infts-Changes :
      (read : FileRead InftManifest) (now : ℕ) (s : ObserverStore)
      → Changes p s (load_infts p read now s)
  unfolding load_infts
  load_infts-Changes absent now s = done
  load_infts-Changes (unreadable reason) now s = one (emits now _)
  load_infts-Changes (content m) now s =
      elim (Bool-cases (is_stamped (stamp_of p m) s.last_inft_manifest_stamp)) [
        | inl e ↦ rw e (one (lists _))
        | inr e ↦ rw e (after (after (one (lists _)) (stamps _)) (emits now _))
      ]

  module _ (env : Explorers) where
    hydrate_state-Changes :
        (now fips : ℕ) (state : StateDashboardView) (file : FileRead MemoryStateFile)
        (s : ObserverStore)
        → Changes p s (hydrate_state p env now fips state file s)
    unfolding hydrate_state hydrate_view with_health
    hydrate_state-Changes now fips state absent s = done
    hydrate_state-Changes now fips state (unreadable reason) s = one (emits now _)
    hydrate_state-Changes now fips state (content parsed) s =
        one (shows fips (hydrate_view env (p.iso_string now) parsed state) refl)

    hydrate_states-Changes :
        (memory : String → FileRead MemoryStateFile) (now : ℕ) (m : Dict ℕ StateDashboardView)
        (s : ObserverStore)
        → Changes p s (hydrate_states p env memory now m s)
    unfolding hydrate_states
    hydrate_states-Changes memory now [] s = done
    hydrate_states-Changes memory now ((fips, state) ∷ rest) s =
        join (hydrate_state-Changes now fips state _ s) (hydrate_states-Changes memory now rest _)

    -- Every operation is a sequence of elementary changes.
    pub apply-Changes :
        (now : ℕ) (o : Operation) (s : ObserverStore) → Changes p s (apply p env now o s)
    unfolding apply ingest_indicator ingest_fed_rate ingest_negotiation_round ingest_swap_executed
        ingest_shock_injected ingest_reflection hydrate_from_memory snapshot shock_snapshot
        query_treasury messages_per_minute gc_shocks
    apply-Changes now (indicator input) s =
        after (put_indicator-Changes _ _ (ensure_state-Changes input.state_fips s)) (emits now _)
    apply-Changes now (fed_rate input) s = after (one (announces _)) (emits now _)
    apply-Changes now (round payload) s = after (one (negotiates now payload)) (emits now _)
    apply-Changes now (swap payload) s = after (one (swaps payload)) (emits now _)
    apply-Changes now (shock payload) s = after (one (shocks _)) (emits now _)
    apply-Changes now (reflect payload) s = after (one (reflections _)) (emits now _)
    apply-Changes now (mesh key peers) s = update_mesh-Changes now key peers s
    apply-Changes now (hydrate memory) s = hydrate_states-Changes memory now s.states s
    apply-Changes now (manifest read) s = load_infts-Changes read now s
    apply-Changes now take_snapshot s = after (one (shocks _)) (prunes _)
    apply-Changes now take_shocks s = one (shocks _)
    apply-Changes now (query fips) s = ensure_state-Changes fips s

    -- What every elementary change preserves, a run preserves.
    pub run-preserves_Change {ℓ} :
        (P : ObserverStore → Type ℓ) (ops : List (ℕ × Operation)) (s : ObserverStore)
        → ((a b : ObserverStore) → Change p a b → P a → P b)
        → P s
        → P (run p env ops s)
    run-preserves_Change P ops s step =
        run-preserves p env P ops s
          (λ now o t h. Changes-preserve p P step (apply-Changes now o t) h)
