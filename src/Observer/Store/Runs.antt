-- ===== src/Observer/Store/Runs.antt =====
-- What can be asked of the store of packages/observer/src/store.ts, and a store after a sequence of
-- it, each at the time of its clock.
pub mod Changes
pub mod Latest
pub mod Judged
pub mod Core
pub mod Has
pub mod Recent
pub mod Coherent
use federated_reserve.Prelude.{ℕ, String, List, [], ◌∷◌}
use federated_reserve.Shared.Platform.{Platform}
use federated_reserve.Observer.Types.{
  IndicatorInput, FedRateInput, NegotiationRoundPayload, SwapExecutedPayload, ShockInjectedPayload,
  ReflectionPayload, InftManifest,
}
use federated_reserve.Observer.Project.{Explorers}
use federated_reserve.Observer.Store.{ObserverStore}
use federated_reserve.Observer.Store.Operations.{
  ingest_indicator, ingest_fed_rate, ingest_negotiation_round, ingest_swap_executed,
  ingest_shock_injected, ingest_reflection, update_mesh,
}
use federated_reserve.Observer.Store.Hydrate.{
  MemoryStateFile, FileRead, hydrate_from_memory, load_infts,
}
use federated_reserve.Observer.Store.Snapshot.{snapshot, shock_snapshot, query_treasury}

pub data Operation : Type 0 where
  indicator : IndicatorInput → Operation
  fed_rate : FedRateInput → Operation
  round : NegotiationRoundPayload → Operation
  swap : SwapExecutedPayload → Operation
  shock : ShockInjectedPayload → Operation
  reflect : ReflectionPayload → Operation
  mesh : String → List String → Operation
  hydrate : (String → FileRead MemoryStateFile) → Operation
  manifest : FileRead InftManifest → Operation
  take_snapshot : Operation
  take_shocks : Operation
  query : ℕ → Operation

module _ (p : Platform) (env : Explorers) where
  unfoldable pub apply : ℕ → Operation → ObserverStore → ObserverStore
  unfolding ingest_indicator ingest_fed_rate ingest_negotiation_round ingest_swap_executed
      ingest_shock_injected ingest_reflection update_mesh hydrate_from_memory load_infts snapshot
      shock_snapshot query_treasury
  apply now (indicator input) s = ingest_indicator p now input s
  apply now (fed_rate input) s = ingest_fed_rate p now input s
  apply now (round payload) s = ingest_negotiation_round p now payload s
  apply now (swap payload) s = ingest_swap_executed p now payload s
  apply now (shock payload) s = ingest_shock_injected p now payload s
  apply now (reflect payload) s = ingest_reflection p now payload s
  apply now (mesh key peers) s = update_mesh p now key peers s
  apply now (hydrate memory) s = hydrate_from_memory p env memory now s
  apply now (manifest read) s = load_infts p read now s
  apply now take_snapshot s = (snapshot p now s).0
  apply now take_shocks s = (shock_snapshot p now s).0
  apply now (query fips) s = (query_treasury p now fips s).0

  unfoldable pub run : List (ℕ × Operation) → ObserverStore → ObserverStore
  unfolding apply
  run [] s = s
  run ((now, o) ∷ rest) s = run rest (apply now o s)

  -- What every operation preserves, a run preserves.
  pub run-preserves {ℓ} :
      (P : ObserverStore → Type ℓ) (ops : List (ℕ × Operation)) (s : ObserverStore)
      → ((now : ℕ) (o : Operation) (t : ObserverStore) → P t → P (apply now o t))
      → P s
      → P (run ops s)
  unfolding run
  run-preserves P [] s step h = h
  run-preserves P ((now, o) ∷ rest) s step h =
      run-preserves P rest (apply now o s) step (step now o s h)
