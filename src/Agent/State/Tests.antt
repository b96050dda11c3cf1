-- ===== src/Agent/State/Tests.antt =====
-- A rate, a reading of the chain and an indicator reach a new agent.
use federated_reserve.Prelude.{none, List, [], ◌∷◌}
use federated_reserve.Prelude.Int.{pos}
use federated_reserve.Agent.State.{
  Arrival, indicator, fed_rate, chain_read, receive_all, make_initial_state,
}
use federated_reserve.Agent.State.Recent.{
  Shows, indicators_of, fed_rates_of, last_read, make_initial_state-Shows,
}

abbrev three_arrivals : List Arrival
three_arrivals =
    fed_rate (record { rate_bps = 525; effective = "now"; rationale = ""; received_at = "t0" })
    ∷ chain_read (record {
      wallet_address = "0xtx";
      usdc_balance_raw = "1000000";
      state_token = none;
      bonds = [];
      total_notional_usd = 1000000;
      liquid_reserve_ratio = 10000;
    })
    ∷ indicator (record {
      state_fips = 6;
      indicator = "unemployment";
      value = pos 540;
      timestamp = "t1";
      source = "FRED";
      received_at = "t2";
    })
    ∷ []

make_initial_state-Shows_example :
    Shows
      (indicators_of three_arrivals)
      (fed_rates_of three_arrivals)
      (last_read none three_arrivals)
      (receive_all (make_initial_state 48) three_arrivals)
make_initial_state-Shows_example = make_initial_state-Shows 48 three_arrivals
