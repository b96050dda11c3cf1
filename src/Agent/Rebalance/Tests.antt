-- ===== src/Agent/Rebalance/Tests.antt =====
-- An agent below its band sells its token, and then rests.
use federated_reserve.Prelude.{none, some, [], ◌≡◌, ◌⊎◌, arith, refl}
use federated_reserve.Agent.State.{AgentState, ChainBalances, make_initial_state}
use federated_reserve.Agent.Rebalance.{RebalanceConfig, RebalanceDeps, maybe_auto_rebalance}
use federated_reserve.Agent.Rebalance.Bounds.{AsksAllowed, maybe_auto_rebalance-AsksAllowed}
use federated_reserve.Agent.Rebalance.Cooldown.{maybe_auto_rebalance-rests}

abbrev reading : ChainBalances
reading = record {
  wallet_address = "0x1";
  usdc_balance_raw = "100000000";
  state_token = some (record { address = "0xca"; symbol = "CAT"; balance_raw = "900" });
  bonds = [];
  total_notional_usd = 1000000000;
  liquid_reserve_ratio = 1000;
}

abbrev config : RebalanceConfig
config = record {
  target_reserve_ratio = 3000;
  drift_bps = 500;
  min_swap_usdc = 1000000;
  max_swap_usdc = 50000000;
  cooldown_ticks = 6;
}

abbrev deps : RebalanceDeps
deps = record {
  usdc_address = some "0xusdc";
  swap_executor = some (λ o. some (record { tx_hash = "0x2"; expected_out = 5 }));
  chain_reader = none;
}

abbrev agent : AgentState
agent = record (make_initial_state 6) { chain_balances = some reading }

maybe_auto_rebalance-AsksAllowed_example :
    AsksAllowed deps 7 config agent (maybe_auto_rebalance deps 7 config agent)
maybe_auto_rebalance-AsksAllowed_example = maybe_auto_rebalance-AsksAllowed deps 7 config agent

maybe_auto_rebalance-rests_example :
    ((maybe_auto_rebalance deps 7 config agent).reports ≡ [])
    ⊎ ((maybe_auto_rebalance deps 12 config (maybe_auto_rebalance deps 7 config agent).state).orders
        ≡ [])
maybe_auto_rebalance-rests_example =
    maybe_auto_rebalance-rests deps deps 7 12 config agent
      (maybe_auto_rebalance deps 7 config agent).state (omega arith) (omega arith) refl
