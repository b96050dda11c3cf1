-- ===== src/Observer/Store.antt =====
-- packages/observer/src/store.ts: the state of the observer and what comes to it over the network.
-- An operation reads the clock once, as `now`, in milliseconds; the delivery of an event to those
-- who have subscribed is left out.
pub mod Negotiations
pub mod Operations
pub mod Hydrate
pub mod Snapshot
pub mod Runs
use federated_reserve.Prelude.{
  ℕ, suc, String, Option, none, some, List, [], ◌∷◌, Bool, if◌then◌else◌, ◌==◌, nat_eq, or_else,
  push_capped, select, ◌>>=◌, string_eq,
}
use federated_reserve.Prelude.Dict.{Dict, lookup, insert}
use federated_reserve.Shared.Platform.{Platform}
use federated_reserve.Shared.States.{
  StateInfo, StateTier, deep, observer, federal, states, lookup_state_by_fips,
}
use federated_reserve.Observer.Types.{
  Health, unknown, IndicatorEntry, FedRateView, FedRateHistoryEntry, NegotiationView,
  SwapExecutedPayload, ShockInjectedPayload, ReflectionPayload, ObserverEvent, Payload,
  InftManifestEntry, StateDashboardView,
}

abbrev pub event_cap : ℕ
event_cap = 240

abbrev pub state_memory_cap : ℕ
state_memory_cap = 120

pub record MeshView : Type 0 where
  pub observer_pubkey : String
  pub peers : List String
  pub refreshed_at : Option String

pub record ObserverStore : Type 0 where
  pub states : Dict ℕ StateDashboardView
  pub events : List ObserverEvent
  pub event_times : List ℕ
  pub next_event_id : ℕ
  pub next_history_id : ℕ
  pub latest_fed_rate : Option FedRateView
  pub mesh : MeshView
  pub infts : List InftManifestEntry
  pub fed_rate_history : List FedRateHistoryEntry
  pub negotiations : Dict String NegotiationView
  pub swaps : List SwapExecutedPayload
  pub shocks : Dict String ShockInjectedPayload
  pub reflections : Dict ℕ ReflectionPayload
  pub last_inft_manifest_stamp : Option String

abbrev pub is_federal : StateTier → Bool
is_federal federal = Bool.true
is_federal _ = Bool.false

-- A state of which nothing has been heard.
abbrev pub blank_view : StateInfo → StateDashboardView
blank_view state = record {
  fips = state.fips;
  abbr = state.abbr;
  name = state.name;
  region = state.region;
  tier = state.tier;
  health = unknown;
  reserve_ratio = none;
  total_value_usd = none;
  composition = [];
  latest_indicator = none;
  indicators = [];
  tick_count = none;
  last_seen_at = none;
  wallet_address = none;
  chain_balances = none;
  og_status = none;
}

-- The loop of the constructor.
unfoldable pub blank_states : List StateInfo → Dict ℕ StateDashboardView → Dict ℕ StateDashboardView
blank_states [] views = views
blank_states (state ∷ rest) views =
    if is_federal state.tier
    then blank_states rest views
    else blank_states rest (insert state.fips (blank_view state) views)

unfoldable pub make_store : ObserverStore
unfolding blank_states states
make_store = record {
  states = blank_states states [];
  events = [];
  event_times = [];
  next_event_id = 1;
  next_history_id = 1;
  latest_fed_rate = none;
  mesh = record { observer_pubkey = ""; peers = []; refreshed_at = none };
  infts = [];
  fed_rate_history = [];
  negotiations = [];
  swaps = [];
  shocks = [];
  reflections = [];
  last_inft_manifest_stamp = none;
}

module _ (p : Platform) where
  unfoldable pub emit : ℕ → Payload → ObserverStore → ObserverStore
  emit now payload store =
      let event : ObserverEvent = record {
        id = store.next_event_id;
        timestamp = p.iso_string now;
        payload = payload;
      } in
      record store {
        next_event_id = suc store.next_event_id;
        events = push_capped event_cap store.events event;
        event_times = push_capped state_memory_cap store.event_times now;
      }

-- `this.states.set(fips, view)` where a view of the state is made.
abbrev pub adopt : ObserverStore → ℕ → Option StateInfo → ObserverStore × Option StateDashboardView
adopt store fips none = (store, none)
adopt store fips (some meta) = if is_federal meta.tier then (store, none) else (
  record store { states = insert fips (blank_view meta) store.states },
  some (blank_view meta),
)

abbrev pub known_or_adopted :
    ObserverStore → ℕ → Option StateDashboardView → ObserverStore × Option StateDashboardView
unfolding lookup_state_by_fips
known_or_adopted store fips (some view) = (store, some view)
known_or_adopted store fips none = adopt store fips (lookup_state_by_fips fips)

-- `ensureState`
unfoldable pub ensure_state : ObserverStore → ℕ → ObserverStore × Option StateDashboardView
ensure_state store fips = known_or_adopted store fips (lookup fips store.states)
