-- ===== src/Agent/Rebalance.antt =====
-- packages/agent/src/tick.ts: maybeAutoRebalance, with which an agent trades its token against USDC
-- when its reserve ratio leaves its band. Ratios and drifts are in basis points.
pub mod Bounds
pub mod Cooldown
mod Tests
use federated_reserve.Prelude.{
  ℕ, ◌+◌, ◌-◌, ◌*◌, ◌/◌, ◌^◌, String, Option, none, some, List, [], ◌∷◌, Bool, true, false, ◌&&◌,
  ◌||◌, if◌then◌else◌, ltb, leb, ◌==◌, nat_eq, string_eq, or_else,
}
use federated_reserve.Prelude.Int.{ℤ, pos, negsuc}
use federated_reserve.Shared.BigInt.{given, big_int}
use federated_reserve.Agent.State.{
  AgentState, ChainBalances, StateTokenBalance, apply_chain_balances,
}

pub record RebalanceConfig : Type 0 where
  pub target_reserve_ratio : ℕ
  pub drift_bps : ℕ
  pub min_swap_usdc : ℕ
  pub max_swap_usdc : ℕ
  pub cooldown_ticks : ℕ

pub record SwapOrder : Type 0 where
  pub token_in : String
  pub token_out : String
  pub amount : ℤ

pub record SwapResult : Type 0 where
  pub tx_hash : String
  pub expected_out : ℕ

-- What is reported to the observer.
pub record SwapReport : Type 0 where
  pub give_asset : String
  pub give_amount : ℤ
  pub receive_asset : String
  pub receive_amount : ℕ
  pub tx_hash : String

-- What the agent is given: the address of USDC in the deployments, which may be missing, the
-- executor of swaps, `none` from which is an error, and the reader of the chain.
pub record RebalanceDeps : Type 0 where
  pub usdc_address : Option String
  pub swap_executor : Option (SwapOrder → Option SwapResult)
  pub chain_reader : Option (Option ChainBalances)

-- What is left once a rebalancing has returned or thrown: the state, the swaps that were asked of
-- the executor, the reports, and whether it threw.
pub record Rebalanced : Type 0 where
  pub state : AgentState
  pub orders : List SwapOrder
  pub reports : List SwapReport
  pub threw : Bool

-- An early return.
abbrev pub idle : AgentState → Rebalanced
idle s = record { state = s; orders = []; reports = []; threw = false }

abbrev pub thrown : AgentState → Rebalanced
thrown s = record { state = s; orders = []; reports = []; threw = true }

unfoldable pub clamp_usdc : ℕ → ℕ → ℕ → ℕ
clamp_usdc value lo hi = if ltb value lo then lo else if ltb hi value then hi else value

-- `last != null && last > 0 && tick - last < cooldown`
unfoldable pub is_cooling : ℕ → ℕ → Option ℤ → Bool
is_cooling tick cooldown none = false
is_cooling tick cooldown (some (negsuc n)) = false
is_cooling tick cooldown (some (pos n)) = leb 1 n && ltb tick (n + cooldown)

-- `ratio < targetMin`, and `ratio > targetMax`
abbrev pub is_below : RebalanceConfig → ℕ → Bool
is_below cfg ratio = ltb (ratio + cfg.drift_bps) cfg.target_reserve_ratio

abbrev pub is_above : RebalanceConfig → ℕ → Bool
is_above cfg ratio = ltb (cfg.target_reserve_ratio + cfg.drift_bps) ratio

-- `if (amountIn > raw) amountIn = raw`
unfoldable pub capped : ℕ → ℤ → ℤ
capped amount (negsuc n) = negsuc n
capped amount (pos raw) = if ltb raw amount then pos raw else pos amount

-- `amount === 0n`
abbrev pub is_zero : ℤ → Bool
is_zero (pos n) = n == 0
is_zero (negsuc n) = false

-- The gap between two ratios, as an amount of USDC.
abbrev pub gap_usdc : RebalanceConfig → ℕ → ℕ → ℕ
gap_usdc cfg gap total = clamp_usdc (gap * total / 10000) cfg.min_swap_usdc cfg.max_swap_usdc

-- What to sell for what: the state's token for USDC below the band, USDC for the token above it.
unfoldable pub order_for :
    RebalanceConfig → ChainBalances → StateTokenBalance → String → ℤ → ℤ → SwapOrder
unfolding clamp_usdc capped
order_for cfg b token usdc usdc_raw st_raw =
    if is_below cfg b.liquid_reserve_ratio
    then record {
      token_in = token.address;
      token_out = usdc;
      amount =
          capped
            (gap_usdc cfg (cfg.target_reserve_ratio - b.liquid_reserve_ratio) b.total_notional_usd
              * 1000000000000)
            st_raw;
    }
    else record {
      token_in = usdc;
      token_out = token.address;
      amount =
          capped
            (gap_usdc cfg (b.liquid_reserve_ratio - cfg.target_reserve_ratio) b.total_notional_usd)
            usdc_raw;
    }

abbrev pub asset_name : String → StateTokenBalance → String → String
asset_name usdc token address = if address == usdc then "USDC" else token.symbol

abbrev pub report_of : String → StateTokenBalance → SwapOrder → SwapResult → SwapReport
report_of usdc token order result = record {
  give_asset = asset_name usdc token order.token_in;
  give_amount = order.amount;
  receive_asset = asset_name usdc token order.token_out;
  receive_amount = result.expected_out;
  tx_hash = result.tx_hash;
}

-- `if (deps.chainReader) { const next = await ...refresh(); if (next) applyChainBalances(...) }`
abbrev pub refreshed : Option (Option ChainBalances) → AgentState → AgentState
unfolding apply_chain_balances
refreshed none s = s
refreshed (some none) s = s
refreshed (some (some next)) s = apply_chain_balances s next

-- The body of the `try`, and of the `catch`.
unfoldable pub place_swap :
    RebalanceDeps
    → ℕ
    → AgentState
    → String
    → StateTokenBalance
    → SwapOrder
    → Option SwapResult
    → Rebalanced
unfolding refreshed
place_swap deps tick s usdc token order none = record {
  state = s;
  orders = order ∷ [];
  reports = [];
  threw = false;
}
place_swap deps tick s usdc token order (some result) = record {
  state = refreshed deps.chain_reader (record s { last_auto_swap_tick = some (pos tick) });
  orders = order ∷ [];
  reports = report_of usdc token order result ∷ [];
  threw = false;
}

-- From the address of USDC and the two balances on; a text that is no integer throws.
unfoldable pub trade :
    RebalanceDeps
    → ℕ
    → RebalanceConfig
    → AgentState
    → (SwapOrder → Option SwapResult)
    → ChainBalances
    → StateTokenBalance
    → Option String
    → Option ℤ
    → Option ℤ
    → Rebalanced
unfolding order_for place_swap
trade deps tick cfg s swap b token (some usdc) (some usdc_raw) (some st_raw) =
    let order : SwapOrder = order_for cfg b token usdc usdc_raw st_raw in
    if is_zero order.amount then idle s else place_swap deps tick s usdc token order (swap order)
trade deps tick cfg s swap b token _ _ _ = thrown s

unfoldable pub rebalance_token :
    RebalanceDeps
    → ℕ
    → RebalanceConfig
    → AgentState
    → (SwapOrder → Option SwapResult)
    → ChainBalances
    → Option StateTokenBalance
    → Rebalanced
unfolding trade big_int
rebalance_token deps tick cfg s swap b none = idle s
rebalance_token deps tick cfg s swap b (some token) =
    trade deps tick cfg s swap b token deps.usdc_address (big_int (given b.usdc_balance_raw))
      (big_int (given token.balance_raw))

unfoldable pub rebalance_with :
    RebalanceDeps
    → ℕ
    → RebalanceConfig
    → AgentState
    → Option (SwapOrder → Option SwapResult)
    → Option ChainBalances
    → Rebalanced
unfolding rebalance_token is_cooling
rebalance_with deps tick cfg s (some swap) (some b) =
    if is_cooling tick cfg.cooldown_ticks s.last_auto_swap_tick
    then idle s
    else if is_below cfg b.liquid_reserve_ratio || is_above cfg b.liquid_reserve_ratio
    then rebalance_token deps tick cfg s swap b b.state_token
    else idle s
rebalance_with deps tick cfg s _ _ = idle s

-- `maybeAutoRebalance`
unfoldable pub maybe_auto_rebalance : RebalanceDeps → ℕ → RebalanceConfig → AgentState → Rebalanced
unfolding rebalance_with
maybe_auto_rebalance deps tick cfg s =
    rebalance_with deps tick cfg s deps.swap_executor s.chain_balances
