-- ===== src/Agent/State.antt =====
-- packages/agent/src/state.ts: the working state of an agent. The reserve ratio is in basis points,
-- amounts of dollars are in millionths of a dollar. The fields of the state that only other files
-- set are left out.
pub mod Recent
mod Tests
use federated_reserve.Prelude.{
  ℕ, String, Option, none, some, List, [], ◌∷◌, ◌++◌, map, if◌then◌else◌, or_else, push_capped,
  ◌==◌, string_eq,
}
use federated_reserve.Prelude.Int.{ℤ, pos, negate}

pub record TreasuryAsset : Type 0 where
  pub asset : String
  pub balance : String

pub record FedRateRecord : Type 0 where
  pub rate_bps : ℕ
  pub effective : String
  pub rationale : String
  pub received_at : String

-- An indicator that a peer sent, with the time that it came.
pub record ReceivedIndicator : Type 0 where
  pub state_fips : ℕ
  pub indicator : String
  pub value : ℤ
  pub timestamp : String
  pub source : String
  pub received_at : String

-- The state's own token, of which there is one for each state that has been deployed.
pub record StateTokenBalance : Type 0 where
  pub address : String
  pub symbol : String
  pub balance_raw : String

-- What the agent reads of a reading of the chain.
pub record ChainBalances : Type 0 where
  pub wallet_address : String
  pub usdc_balance_raw : String
  pub state_token : Option StateTokenBalance
  pub bonds : List TreasuryAsset
  pub total_notional_usd : ℕ
  pub liquid_reserve_ratio : ℕ

pub record OgStatus : Type 0 where
  pub wallet_address : String
  pub block_number : String

pub record AgentState : Type 0 where
  pub composition : List TreasuryAsset
  pub reserve_ratio : ℕ
  pub total_value_usd : ℕ
  pub received_indicators : List ReceivedIndicator
  pub tick_count : ℕ
  pub received_fed_rates : Option (List FedRateRecord)
  pub wallet_address : Option String
  pub chain_balances : Option ChainBalances
  pub og_status : Option OgStatus
  pub last_auto_swap_tick : Option ℤ

abbrev pub received_indicators_cap : ℕ
received_indicators_cap = 200

abbrev pub fed_rate_cap : ℕ
fed_rate_cap = 32

abbrev pub initial_composition : List TreasuryAsset
initial_composition =
    record { asset = "USDC"; balance = "0" } ∷ record { asset = "STATE_TOKEN"; balance = "0" } ∷ []

pub make_initial_state : ℕ → AgentState
make_initial_state state_fips = record {
  composition = initial_composition;
  reserve_ratio = 0;
  total_value_usd = 0;
  received_indicators = [];
  tick_count = 0;
  received_fed_rates = none;
  wallet_address = none;
  chain_balances = none;
  og_status = none;
  last_auto_swap_tick = some (negate (pos state_fips));
}

-- The treasury that a reading of the chain shows: USDC, the state's own token if any, the bonds.
unfoldable pub composition_of : ChainBalances → List TreasuryAsset
composition_of b =
    record { asset = "USDC"; balance = b.usdc_balance_raw }
    ∷ (elim b.state_token [
      | none ↦ []
      | some t ↦ record { asset = t.symbol; balance = t.balance_raw } ∷ []
    ]
        ++ b.bonds)

unfoldable pub apply_chain_balances : AgentState → ChainBalances → AgentState
unfolding composition_of
apply_chain_balances state b = record state {
  composition = composition_of b;
  total_value_usd = b.total_notional_usd;
  reserve_ratio = b.liquid_reserve_ratio;
  chain_balances = some b;
  wallet_address = some b.wallet_address;
}

-- An empty address counts as none.
abbrev pub keep_wallet : Option String → String → Option String
keep_wallet none other = some other
keep_wallet (some address) other = if address == "" then some other else some address

pub apply_og_status : AgentState → OgStatus → AgentState
apply_og_status state og = record state {
  og_status = some og;
  wallet_address = keep_wallet state.wallet_address og.wallet_address;
}

pub push_received_indicator : AgentState → ReceivedIndicator → AgentState
push_received_indicator state entry = record state {
  received_indicators = push_capped received_indicators_cap state.received_indicators entry;
}

pub push_received_fed_rate : AgentState → FedRateRecord → AgentState
push_received_fed_rate state rate = record state {
  received_fed_rates = some (push_capped fed_rate_cap (or_else state.received_fed_rates []) rate);
}

-- What can come to a state, and a state after a sequence of it.
pub data Arrival : Type 0 where
  indicator : ReceivedIndicator → Arrival
  fed_rate : FedRateRecord → Arrival
  chain_read : ChainBalances → Arrival
  og_read : OgStatus → Arrival

pub receive : AgentState → Arrival → AgentState
unfolding push_received_indicator push_received_fed_rate apply_chain_balances apply_og_status
receive state (indicator e) = push_received_indicator state e
receive state (fed_rate r) = push_received_fed_rate state r
receive state (chain_read b) = apply_chain_balances state b
receive state (og_read o) = apply_og_status state o

pub receive_all : AgentState → List Arrival → AgentState
unfolding receive
receive_all state [] = state
receive_all state (a ∷ arrivals) = receive_all (receive state a) arrivals
