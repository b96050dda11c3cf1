-- ===== src/Agent/State/Recent.antt =====
-- What the state of packages/agent/src/state.ts shows of all that has arrived.
use federated_reserve.Prelude.{
  ℕ, ◌≡◌, ◌∙◌, refl, ap, Option, none, some, List, [], ◌∷◌, ◌++◌, append_assoc, append-nil, or_else,
  keep, push_capped, push_capped-keep,
}
use federated_reserve.Agent.State.{
  AgentState, ReceivedIndicator, FedRateRecord, ChainBalances, Arrival, indicator, fed_rate,
  chain_read, og_read, receive, receive_all, make_initial_state, composition_of,
  initial_composition, received_indicators_cap, fed_rate_cap, push_received_indicator,
  push_received_fed_rate, apply_chain_balances, apply_og_status,
}

pub indicators_of : List Arrival → List ReceivedIndicator
indicators_of [] = []
indicators_of (indicator e ∷ arrivals) = e ∷ indicators_of arrivals
indicators_of (_ ∷ arrivals) = indicators_of arrivals

pub fed_rates_of : List Arrival → List FedRateRecord
fed_rates_of [] = []
fed_rates_of (fed_rate r ∷ arrivals) = r ∷ fed_rates_of arrivals
fed_rates_of (_ ∷ arrivals) = fed_rates_of arrivals

-- The latest reading of the chain, after an earlier one if any.
pub last_read : Option ChainBalances → List Arrival → Option ChainBalances
last_read earlier [] = earlier
last_read earlier (chain_read b ∷ arrivals) = last_read (some b) arrivals
last_read earlier (_ ∷ arrivals) = last_read earlier arrivals

-- The treasury fields as a reading, or the lack of one, sets them.
pub ShowsTreasury : Option ChainBalances → AgentState → Type 0
ShowsTreasury none s =
    (s.composition ≡ initial_composition) × (s.total_value_usd ≡ 0) × (s.reserve_ratio ≡ 0)
ShowsTreasury (some b) s =
    (s.composition ≡ composition_of b)
    × (s.total_value_usd ≡ b.total_notional_usd)
    × (s.reserve_ratio ≡ b.liquid_reserve_ratio)

-- A state that shows these indicators, these rates and this reading.
pub record Shows (es : List ReceivedIndicator) (rs : List FedRateRecord) (b : Option ChainBalances)
    (s : AgentState) : Type 0 where
  pub indicators : s.received_indicators ≡ keep received_indicators_cap es
  pub rates : or_else s.received_fed_rates [] ≡ keep fed_rate_cap rs
  pub treasury : ShowsTreasury b s

ShowsTreasury-same :
    (b : Option ChainBalances) (s t : AgentState)
    → s.composition ≡ t.composition
    → s.total_value_usd ≡ t.total_value_usd
    → s.reserve_ratio ≡ t.reserve_ratio
    → ShowsTreasury b t
    → ShowsTreasury b s
unfolding ShowsTreasury
ShowsTreasury-same none s t c v r (h, k, l) = (c ∙ h, v ∙ k, r ∙ l)
ShowsTreasury-same (some b) s t c v r (h, k, l) = (c ∙ h, v ∙ k, r ∙ l)

receive_all-Shows :
    (arrivals : List Arrival) (es : List ReceivedIndicator) (rs : List FedRateRecord)
    (b : Option ChainBalances) (s : AgentState)
    → Shows es rs b s
    → Shows
        (es ++ indicators_of arrivals)
        (rs ++ fed_rates_of arrivals)
        (last_read b arrivals)
        (receive_all s arrivals)
unfolding receive_all receive push_received_indicator push_received_fed_rate apply_chain_balances
    apply_og_status indicators_of fed_rates_of last_read ShowsTreasury
receive_all-Shows [] es rs b s h = rw (append-nil es, append-nil rs) h
receive_all-Shows (indicator e ∷ arrivals) es rs b s h =
    rw⁻¹ (append_assoc es (e ∷ []) (indicators_of arrivals)) (
      receive_all-Shows arrivals (es ++ e ∷ []) rs b (push_received_indicator s e) (record {
        indicators =
            ap (λ xs. push_capped received_indicators_cap xs e) h.indicators
            ∙ push_capped-keep received_indicators_cap es e;
        rates = h.rates;
        treasury = ShowsTreasury-same b (push_received_indicator s e) s refl refl refl h.treasury;
      }))
receive_all-Shows (fed_rate r ∷ arrivals) es rs b s h =
    rw⁻¹ (append_assoc rs (r ∷ []) (fed_rates_of arrivals)) (
      receive_all-Shows arrivals es (rs ++ r ∷ []) b (push_received_fed_rate s r) (record {
        indicators = h.indicators;
        rates =
            ap (λ xs. push_capped fed_rate_cap xs r) h.rates ∙ push_capped-keep fed_rate_cap rs r;
        treasury = ShowsTreasury-same b (push_received_fed_rate s r) s refl refl refl h.treasury;
      }))
receive_all-Shows (chain_read c ∷ arrivals) es rs b s h =
    receive_all-Shows arrivals es rs (some c) (apply_chain_balances s c)
      (record { indicators = h.indicators; rates = h.rates; treasury = (refl, refl, refl) })
receive_all-Shows (og_read o ∷ arrivals) es rs b s h =
    receive_all-Shows arrivals es rs b (apply_og_status s o) (record {
      indicators = h.indicators;
      rates = h.rates;
      treasury = ShowsTreasury-same b (apply_og_status s o) s refl refl refl h.treasury;
    })

-- Whatever arrives at a new agent, in whatever order, its state shows the last 200 indicators and
-- the last 32 rates in the order of their arrival, and the treasury of the latest reading of the
-- chain, or the initial one where there was none.
pub make_initial_state-Shows :
    (fips : ℕ) (arrivals : List Arrival)
    → Shows
        (indicators_of arrivals)
        (fed_rates_of arrivals)
        (last_read none arrivals)
        (receive_all (make_initial_state fips) arrivals)
unfolding make_initial_state ShowsTreasury
make_initial_state-Shows fips arrivals =
    receive_all-Shows arrivals [] [] none (make_initial_state fips)
      (record { indicators = refl; rates = refl; treasury = (refl, refl, refl) })
