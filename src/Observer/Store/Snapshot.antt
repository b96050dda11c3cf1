-- ===== src/Observer/Store/Snapshot.antt =====
-- packages/observer/src/store.ts: what the store answers. `snapshot` prunes the shocks and the times
-- of events, so it gives the store that it leaves too.
pub mod Fresh
use federated_reserve.Prelude.{
  ℕ, ◌+◌, ◌-◌, String, Option, some, List, [], ◌∷◌, if◌then◌else◌, leb, ltb, or_else, length, ◌>>=◌,
  not, ◌&&◌, map, reverse, take, select, min, max,
}
use federated_reserve.Prelude.Dict.{values}
use federated_reserve.Prelude.Sort.{sort}
use federated_reserve.Shared.Platform.{Platform, concat}
use federated_reserve.Shared.States.{StateInfo, lookup_state_by_fips}
use federated_reserve.Agent.State.{TreasuryAsset}
use federated_reserve.Observer.Types.{
  StateDashboardView, ObserverEvent, FedRateView, FedRateHistoryEntry, NegotiationView,
  SwapExecutedPayload, ShockInjectedPayload, ReflectionPayload, InftManifestEntry,
}
use federated_reserve.Observer.Store.{ObserverStore, MeshView, event_cap, ensure_state}
use federated_reserve.Observer.Store.Negotiations.{is_open}
use federated_reserve.Observer.Store.Operations.{gc_shocks}

pub record Metrics : Type 0 where
  pub messages_seen : ℕ
  pub messages_per_minute : ℕ
  pub total_known_tvl_usd : ℕ
  pub swaps_executed : ℕ
  pub negotiations_open : ℕ
  pub shocks_active : ℕ

pub record MeshSnapshot : Type 0 where
  pub generated_at : String
  pub mesh : MeshView
  pub metrics : Metrics
  pub latest_fed_rate : Option FedRateView
  pub states : List StateDashboardView
  pub events : List ObserverEvent
  pub infts : List InftManifestEntry
  pub fed_rate_history : List FedRateHistoryEntry
  pub reflections : List ReflectionPayload
  pub negotiations : List NegotiationView
  pub swaps : List SwapExecutedPayload
  pub shocks : List ShockInjectedPayload

pub record QueryTreasuryResult : Type 0 where
  pub state_fips : ℕ
  pub state_abbr : String
  pub composition : List TreasuryAsset
  pub reserve_ratio : ℕ
  pub total_value_usd : ℕ
  pub timestamp : String

-- `while (times[0] && times[0] < cutoff) times.shift()`
unfoldable pub shift_before : ℕ → List ℕ → List ℕ
shift_before cutoff [] = []
shift_before cutoff (t ∷ ts) =
    if not (leb t 0) && ltb t cutoff then shift_before cutoff ts else t ∷ ts

unfoldable pub messages_per_minute : ℕ → ObserverStore → ObserverStore × ℕ
unfolding shift_before
messages_per_minute now store =
    let recent : List ℕ = shift_before (now - 60000) store.event_times in
    (record store { event_times = recent }, length recent)

abbrev pub total : List (Option ℕ) → ℕ
total [] = 0
total (x ∷ xs) = or_else x 0 + total xs

-- `eventsSince`
unfoldable pub events_since : ℕ → ObserverStore → List ObserverEvent
events_since limit store = take (max 1 (min limit event_cap)) (reverse store.events)

module _ (p : Platform) where
  unfoldable pub negotiation_snapshot : ObserverStore → List NegotiationView
  unfolding sort
  negotiation_snapshot store =
      sort (λ a b. p.locale_leb b.last_at a.last_at) (values store.negotiations)

  unfoldable pub reflections_snapshot : ObserverStore → List ReflectionPayload
  unfolding sort
  reflections_snapshot store =
      sort (λ a b. p.locale_leb b.emitted_at a.emitted_at) (values store.reflections)

  unfoldable pub shock_list : ObserverStore → List ShockInjectedPayload
  unfolding sort
  shock_list store = sort (λ a b. p.locale_leb b.emitted_at a.emitted_at) (values store.shocks)

  unfoldable pub shock_snapshot : ℕ → ObserverStore → ObserverStore × List ShockInjectedPayload
  unfolding gc_shocks shock_list
  shock_snapshot now store = (gc_shocks p now store, shock_list (gc_shocks p now store))

  abbrev pub state_list : ObserverStore → List StateDashboardView
  unfolding sort
  state_list store = sort (λ a b. p.locale_leb a.abbr b.abbr) (values store.states)

  unfoldable pub snapshot : ℕ → ObserverStore → ObserverStore × MeshSnapshot
  unfolding gc_shocks messages_per_minute negotiation_snapshot reflections_snapshot shock_list
  snapshot now store =
      let (left, per_minute) = messages_per_minute now (gc_shocks p now store) in
      (
        left,
        record {
          generated_at = p.iso_string now;
          mesh = left.mesh;
          metrics = record {
            messages_seen = length left.events;
            messages_per_minute = per_minute;
            total_known_tvl_usd = total (map (λ s. s.total_value_usd) (state_list left));
            swaps_executed = length left.swaps;
            negotiations_open = length (select (λ n. is_open n.status) (values left.negotiations));
            shocks_active = length left.shocks;
          };
          latest_fed_rate = left.latest_fed_rate;
          states = state_list left;
          events = take 80 (reverse left.events);
          infts = left.infts;
          fed_rate_history = left.fed_rate_history;
          reflections = reflections_snapshot left;
          negotiations = negotiation_snapshot left;
          swaps = reverse left.swaps;
          shocks = shock_list left;
        },
      )

  abbrev treasury_of : ℕ → ℕ → Option StateInfo → Option StateDashboardView → QueryTreasuryResult
  treasury_of now fips meta state = record {
    state_fips = fips;
    state_abbr = or_else (meta >>= (λ m. some m.abbr)) (concat ("FIPS" ∷ p.number_text fips ∷ []));
    composition = or_else (state >>= (λ s. some s.composition)) [];
    reserve_ratio = or_else (state >>= (λ s. s.reserve_ratio)) 0;
    total_value_usd = or_else (state >>= (λ s. s.total_value_usd)) 0;
    timestamp = p.iso_string now;
  }

  unfoldable pub query_treasury : ℕ → ℕ → ObserverStore → ObserverStore × QueryTreasuryResult
  unfolding ensure_state lookup_state_by_fips
  query_treasury now fips store =
      let (next, state) = ensure_state store fips in
      (next, treasury_of now fips (lookup_state_by_fips fips) state)
