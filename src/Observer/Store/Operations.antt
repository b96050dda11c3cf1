-- ===== src/Observer/Store/Operations.antt =====
-- packages/observer/src/store.ts: the operations of the store that change it, and a store after a
-- sequence of them.
pub mod Mesh
use federated_reserve.Prelude.{
  ℕ, suc, ◌-◌, ◌*◌, String, Option, none, some, List, [], ◌∷◌, Bool, true, not, ◌&&◌, ◌||◌,
  if◌then◌else◌, ◌==◌, nat_eq, string_eq, push_capped, contains, length, last, ◌>>=◌,
}
use federated_reserve.Prelude.Dict.{Dict, lookup, insert}
use federated_reserve.Shared.Platform.{Platform, concat}
use federated_reserve.Observer.Types.{
  IndicatorInput, IndicatorEntry, FedRateInput, FedRateView, FedRateHistoryEntry,
  NegotiationRoundPayload, SwapExecutedPayload, ShockInjectedPayload, ReflectionPayload,
  indicator_received, fed_rate_received, peer_update, negotiation_round, swap_executed,
  shock_injected, reflection, StateDashboardView,
}
use federated_reserve.Prelude.Int.{ℤ}
use federated_reserve.Observer.Health.{derive_health}
use federated_reserve.Observer.Store.{ObserverStore, MeshView, emit, ensure_state}
use federated_reserve.Observer.Store.Negotiations.{record_round, trim_negotiations, before_cutoff}

abbrev pub fed_rate_history_cap : ℕ
fed_rate_history_cap = 24

abbrev pub swap_history_cap : ℕ
swap_history_cap = 40

abbrev pub shock_ttl_ms : ℕ
shock_ttl_ms = 30 * 60 * 1000

-- `state.indicators.unemployment?.value`
abbrev pub unemployment_of : StateDashboardView → Option ℤ
unemployment_of view = lookup "unemployment" view.indicators >>= (λ e. some e.input.value)

unfoldable pub with_health : StateDashboardView → StateDashboardView
unfolding derive_health
with_health view = record view { health = derive_health view.reserve_ratio (unemployment_of view) }

unfoldable pub see_indicator : IndicatorEntry → StateDashboardView → StateDashboardView
unfolding with_health
see_indicator entry view = with_health (record view {
  indicators = insert entry.input.indicator entry view.indicators;
  latest_indicator = some entry;
  last_seen_at = some entry.received_at;
})

-- The entry is assigned to the view, which the map of states holds.
unfoldable pub put_indicator :
    IndicatorEntry → ObserverStore × Option StateDashboardView → ObserverStore
unfolding see_indicator
put_indicator entry (store, none) = store
put_indicator entry (store, some view) = record store {
  states = insert entry.input.state_fips (see_indicator entry view) store.states;
}

-- `!last || last.rate_bps !== view.rate_bps || last.effective !== view.effective`
abbrev pub is_news : Option FedRateHistoryEntry → FedRateView → Bool
is_news none view = true
is_news (some entry) view =
    not (entry.view.rate_bps == view.rate_bps) || not (entry.view.effective == view.effective)

unfoldable pub log_rate : FedRateView → ObserverStore → ObserverStore
log_rate view store =
    if is_news (last store.fed_rate_history) view
    then record store {
      next_history_id = suc store.next_history_id;
      fed_rate_history =
          push_capped fed_rate_history_cap store.fed_rate_history
            (record { id = store.next_history_id; view = view });
    }
    else store

-- `prevPeers.every((p) => peers.includes(p))`
abbrev pub all_in : List String → List String → Bool
all_in [] peers = true
all_in (q ∷ qs) peers = contains q peers && all_in qs peers

-- `sameSet`
unfoldable pub same_mesh : MeshView → String → List String → Bool
same_mesh mesh observer_pubkey peers =
    (length mesh.peers == length peers)
    && (all_in mesh.peers peers && (mesh.observer_pubkey == observer_pubkey))

-- `gcShocks`
unfoldable pub gc :
    Platform → ℕ → Dict String ShockInjectedPayload → Dict String ShockInjectedPayload
gc p cutoff [] = []
gc p cutoff ((key, shock) ∷ rest) =
    if before_cutoff (p.time_of shock.emitted_at) cutoff
    then gc p cutoff rest
    else (key, shock) ∷ gc p cutoff rest

module _ (p : Platform) where
  unfoldable pub ingest_indicator : ℕ → IndicatorInput → ObserverStore → ObserverStore
  unfolding emit put_indicator ensure_state
  ingest_indicator now input store =
      let entry : IndicatorEntry = record { input = input; received_at = p.iso_string now } in
      emit p now (indicator_received entry)
        (put_indicator entry (ensure_state store input.state_fips))

  unfoldable pub ingest_fed_rate : ℕ → FedRateInput → ObserverStore → ObserverStore
  unfolding emit log_rate
  ingest_fed_rate now input store =
      let view : FedRateView = record {
        rate_bps = input.rate_bps;
        effective = input.effective;
        rationale = input.rationale;
        received_at = p.iso_string now;
      } in
      emit p now (fed_rate_received view)
        (log_rate view (record store { latest_fed_rate = some view }))

  unfoldable pub ingest_negotiation_round :
      ℕ → NegotiationRoundPayload → ObserverStore → ObserverStore
  unfolding emit record_round trim_negotiations
  ingest_negotiation_round now payload store =
      emit p now (negotiation_round payload) (record store {
        negotiations = trim_negotiations p now (record_round store.negotiations payload);
      })

  unfoldable pub ingest_swap_executed : ℕ → SwapExecutedPayload → ObserverStore → ObserverStore
  unfolding emit
  ingest_swap_executed now payload store =
      emit p now (swap_executed payload)
        (record store { swaps = push_capped swap_history_cap store.swaps payload })

  abbrev pub shock_key : ShockInjectedPayload → String
  shock_key s = concat (p.number_text s.state_fips ∷ ":" ∷ s.event_type ∷ ":" ∷ s.emitted_at ∷ [])

  unfoldable pub gc_shocks : ℕ → ObserverStore → ObserverStore
  unfolding gc
  gc_shocks now store = record store { shocks = gc p (now - shock_ttl_ms) store.shocks }

  unfoldable pub ingest_shock_injected : ℕ → ShockInjectedPayload → ObserverStore → ObserverStore
  unfolding emit gc_shocks
  ingest_shock_injected now payload store =
      emit p now (shock_injected payload)
        (gc_shocks now (record store { shocks = insert (shock_key payload) payload store.shocks }))

  unfoldable pub ingest_reflection : ℕ → ReflectionPayload → ObserverStore → ObserverStore
  unfolding emit
  ingest_reflection now payload store =
      emit p now (reflection payload)
        (record store { reflections = insert payload.state_fips payload store.reflections })

  unfoldable pub update_mesh : ℕ → String → List String → ObserverStore → ObserverStore
  unfolding emit same_mesh
  update_mesh now observer_pubkey peers store =
      let next : ObserverStore = record store {
        mesh = record {
          observer_pubkey = observer_pubkey;
          peers = peers;
          refreshed_at = some (p.iso_string now);
        };
      } in
      if same_mesh store.mesh observer_pubkey peers
      then next
      else emit p now
          (peer_update (record {
            observer_pubkey = observer_pubkey;
            peer_count = length peers;
            peers = peers;
          }))
          next
