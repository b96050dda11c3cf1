-- ===== src/Observer/Store/Runs/Core.antt =====
-- The fields of the store of packages/observer/src/store.ts that swaps, rates and reflections set, and
-- the operations that leave them alone.
use federated_reserve.Prelude.{
  ℕ, suc, String, Option, none, some, List, [], ◌∷◌, ◌≡◌, ◌∙◌, refl, if◌then◌else◌, Bool-cases, inl,
  inr, last, nat_eq, string_eq, push_capped,
}
use federated_reserve.Prelude.Dict.{Dict, lookup}
use federated_reserve.Shared.Platform.{Platform}
use federated_reserve.Observer.Types.{
  FedRateView, FedRateHistoryEntry, SwapExecutedPayload, ReflectionPayload, IndicatorEntry,
  StateDashboardView, InftManifest,
}
use federated_reserve.Observer.Project.{Explorers}
use federated_reserve.Shared.States.{StateInfo, lookup_state_by_fips}
use federated_reserve.Shared.Text.{lower}
use federated_reserve.Observer.Store.{
  ObserverStore, emit, ensure_state, known_or_adopted, adopt, is_federal,
}
use federated_reserve.Observer.Store.Hydrate.{
  MemoryStateFile, FileRead, absent, unreadable, content, hydrate_states, hydrate_state, load_infts,
  is_stamped, stamp_of,
}
use federated_reserve.Observer.Store.Operations.{
  update_mesh, put_indicator, same_mesh, log_rate, is_news, fed_rate_history_cap,
}

-- The fields that these operations set.
pub record Core : Type 0 where
  pub swaps : List SwapExecutedPayload
  pub history : List FedRateHistoryEntry
  pub next : ℕ
  pub rate : Option FedRateView
  pub reflections : Dict ℕ ReflectionPayload

abbrev pub core : ObserverStore → Core
core s = record {
  swaps = s.swaps;
  history = s.fed_rate_history;
  next = s.next_history_id;
  rate = s.latest_fed_rate;
  reflections = s.reflections;
}

module _ (p : Platform) where
  pub put_indicator-core :
      (entry : IndicatorEntry) (r : ObserverStore × Option StateDashboardView)
      → core (put_indicator entry r) ≡ core r.0
  unfolding put_indicator
  put_indicator-core entry (s, none) = refl
  put_indicator-core entry (s, some view) = refl

  pub ensure_state-core : (fips : ℕ) (s : ObserverStore) → core (ensure_state s fips).0 ≡ core s
  unfolding ensure_state known_or_adopted lookup_state_by_fips
  ensure_state-core fips s = known (lookup fips s.states)
    where
      adopted : (o : Option StateInfo) → core (adopt s fips o).0 ≡ core s
      adopted none = refl
      adopted (some meta) = elim (Bool-cases (is_federal meta.tier)) [
        | inl e ↦ rw e refl
        | inr e ↦ rw e refl
      ]

      known : (o : Option StateDashboardView) → core (known_or_adopted s fips o).0 ≡ core s
      known (some view) = refl
      known none = adopted (lookup_state_by_fips fips)

  pub update_mesh-core :
      (now : ℕ) (key : String) (peers : List String) (s : ObserverStore)
      → core (update_mesh p now key peers s) ≡ core s
  unfolding update_mesh emit
  update_mesh-core now key peers s = elim (Bool-cases (same_mesh s.mesh key peers)) [
    | inl e ↦ rw e refl
    | inr e ↦ rw e refl
  ]

  pub load_infts-core :
      (read : FileRead InftManifest) (now : ℕ) (s : ObserverStore)
      → core (load_infts p read now s) ≡ core s
  unfolding load_infts emit
  load_infts-core absent now s = refl
  load_infts-core (unreadable reason) now s = refl
  load_infts-core (content m) now s =
      elim (Bool-cases (is_stamped (stamp_of p m) s.last_inft_manifest_stamp)) [
        | inl e ↦ rw e refl
        | inr e ↦ rw e refl
      ]

  pub hydrate_states-core :
      (env : Explorers) (memory : String → FileRead MemoryStateFile) (now : ℕ)
      (m : Dict ℕ StateDashboardView) (s : ObserverStore)
      → core (hydrate_states p env memory now m s) ≡ core s
  unfolding hydrate_states hydrate_state emit
  hydrate_states-core env memory now [] s = refl
  hydrate_states-core env memory now ((fips, state) ∷ rest) s =
      hydrate_states-core env memory now rest _ ∙ one (memory (lower state.abbr))
    where
      one : (r : FileRead MemoryStateFile) → core (hydrate_state p env now fips state r s) ≡ core s
      one absent = refl
      one (unreadable reason) = refl
      one (content parsed) = refl

abbrev pub log_core : FedRateView → Core → Core
log_core view c =
    if is_news (last c.history) view
    then record c {
      rate = some view;
      next = suc c.next;
      history = push_capped fed_rate_history_cap c.history (record { id = c.next; view = view });
    }
    else record c { rate = some view }

pub log_rate-core :
    (view : FedRateView) (s : ObserverStore)
    → core (log_rate view (record s { latest_fed_rate = some view })) ≡ log_core view (core s)
unfolding log_rate
log_rate-core view s = elim (Bool-cases (is_news (last s.fed_rate_history) view)) [
  | inl e ↦ rw e refl
  | inr e ↦ rw e refl
]
