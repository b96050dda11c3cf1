-- ===== src/Agent/Rebalance/Bounds.antt =====
-- What maybeAutoRebalance of packages/agent/src/tick.ts trades, and when.
use federated_reserve.Prelude.{
  ℕ, ◌+◌, ◌-◌, ◌*◌, ◌/◌, ◌≤◌, ◌<◌, max, String, Option, none, some, [], ◌∷◌, ◌≡◌, refl, true, false,
  ◌⊎◌, inl, inr, ◌||◌, ltb, nat_eq, Bool-cases, arith,
}
use federated_reserve.Prelude.Int.{ℤ, pos, negsuc, ◌≤ℤ◌}
use federated_reserve.Shared.BigInt.{given, big_int}
use federated_reserve.Agent.State.{AgentState, ChainBalances, StateTokenBalance}
use federated_reserve.Agent.Rebalance.{
  RebalanceConfig, SwapOrder, SwapResult, RebalanceDeps, Rebalanced, clamp_usdc, capped, is_cooling,
  is_below, is_above, is_zero, order_for, place_swap, trade, rebalance_token, rebalance_with,
  maybe_auto_rebalance, gap_usdc,
}

-- A token that is sold: for which token, at most its balance and at most so much.
pub record Sells (token_in token_out : String) (balance : ℤ) (limit : ℕ) (o : SwapOrder)
    : Type 0 where
  pub sold : o.token_in ≡ token_in
  pub bought : o.token_out ≡ token_out
  pub owned : ◌≤ℤ◌ o.amount balance
  pub limited : ◌≤ℤ◌ o.amount (pos limit)

-- The larger bound of a swap, which is the upper one where the bounds are in order.
abbrev pub bound : RebalanceConfig → ℕ
bound cfg = max cfg.min_swap_usdc cfg.max_swap_usdc

-- A swap that leads back into the band: below it the agent sells its token, above it USDC.
pub data LeadsBack (cfg : RebalanceConfig) (b : ChainBalances) (token : StateTokenBalance)
    (usdc : String) (usdc_raw st_raw : ℤ) (o : SwapOrder) : Type 0 where
  below :
      b.liquid_reserve_ratio + cfg.drift_bps < cfg.target_reserve_ratio
      → Sells token.address usdc st_raw (bound cfg * 1000000000000) o
      → LeadsBack cfg b token usdc usdc_raw st_raw o
  above :
      cfg.target_reserve_ratio + cfg.drift_bps < b.liquid_reserve_ratio
      → Sells usdc token.address usdc_raw (bound cfg) o
      → LeadsBack cfg b token usdc usdc_raw st_raw o

-- A swap that the agent may ask for.
pub record IsAllowed (deps : RebalanceDeps) (tick : ℕ) (cfg : RebalanceConfig) (s : AgentState)
    (o : SwapOrder) : Type 0 where
  pub b : ChainBalances
  pub token : StateTokenBalance
  pub usdc : String
  pub usdc_raw : ℤ
  pub st_raw : ℤ
  pub read : s.chain_balances ≡ some b
  pub deployed : b.state_token ≡ some token
  pub known : deps.usdc_address ≡ some usdc
  pub usdc_read : big_int (given b.usdc_balance_raw) ≡ some usdc_raw
  pub st_read : big_int (given token.balance_raw) ≡ some st_raw
  pub rested : is_cooling tick cfg.cooldown_ticks s.last_auto_swap_tick ≡ false
  pub nonzero : is_zero o.amount ≡ false
  pub leads_back : LeadsBack cfg b token usdc usdc_raw st_raw o

-- No swap is asked for, or one that is allowed.
abbrev pub AsksAllowed : RebalanceDeps → ℕ → RebalanceConfig → AgentState → Rebalanced → Type 0
AsksAllowed deps tick cfg s r =
    (r.orders ≡ []) ⊎ ((o : SwapOrder) × (r.orders ≡ o ∷ []) × IsAllowed deps tick cfg s o)

clamp_usdc_le : (v lo hi : ℕ) → clamp_usdc v lo hi ≤ max lo hi
unfolding clamp_usdc
clamp_usdc_le v lo hi = ground arith

capped_le_balance : (n : ℕ) (z : ℤ) → ◌≤ℤ◌ (capped n z) z
unfolding capped
capped_le_balance n (negsuc m) = omega arith
capped_le_balance n (pos m) = elim (Bool-cases (ltb m n)) [
  | inl e ↦ rw e (omega arith)
  | inr e ↦ rw e (ground (arith, e))
]

capped_le_amount : (n m : ℕ) (z : ℤ) → n ≤ m → ◌≤ℤ◌ (capped n z) (pos m)
unfolding capped
capped_le_amount n m (negsuc k) h = omega arith
capped_le_amount n m (pos k) h = elim (Bool-cases (ltb k n)) [
  | inl e ↦ rw e (ground (arith, e, h))
  | inr e ↦ rw e (omega (arith, h))
]

order_for-LeadsBack :
    (cfg : RebalanceConfig) (b : ChainBalances) (token : StateTokenBalance) (usdc : String)
    (usdc_raw st_raw : ℤ)
    → (is_below cfg b.liquid_reserve_ratio || is_above cfg b.liquid_reserve_ratio) ≡ true
    → LeadsBack cfg b token usdc usdc_raw st_raw (order_for cfg b token usdc usdc_raw st_raw)
unfolding order_for
order_for-LeadsBack cfg b token usdc usdc_raw st_raw out =
    let gap : ℕ → ℕ = λ g. gap_usdc cfg g b.total_notional_usd in
    elim (Bool-cases (is_below cfg b.liquid_reserve_ratio)) [
      | inl e ↦ rw e (
          below (ground (arith, e)) (record {
            sold = refl;
            bought = refl;
            owned = capped_le_balance _ st_raw;
            limited = capped_le_amount _ _ st_raw (
                omega (
                  arith,
                  clamp_usdc_le
                      ((cfg.target_reserve_ratio - b.liquid_reserve_ratio)
                        * b.total_notional_usd
                        / 10000)
                      cfg.min_swap_usdc cfg.max_swap_usdc,
                ));
          }))
      | inr e ↦ rw e (
          above (ground (arith, e, out)) (record {
            sold = refl;
            bought = refl;
            owned = capped_le_balance _ usdc_raw;
            limited = capped_le_amount _ _ usdc_raw (clamp_usdc_le _ _ _);
          }))
    ]

place_swap-orders :
    (deps : RebalanceDeps) (tick : ℕ) (s : AgentState) (usdc : String) (token : StateTokenBalance)
    (o : SwapOrder) (r : Option SwapResult)
    → (place_swap deps tick s usdc token o r).orders ≡ o ∷ []
unfolding place_swap
place_swap-orders deps tick s usdc token o none = refl
place_swap-orders deps tick s usdc token o (some result) = refl

module _ (deps : RebalanceDeps) (tick : ℕ) (cfg : RebalanceConfig) (s : AgentState) where
  trade-AsksAllowed :
      (swap : SwapOrder → Option SwapResult) (b : ChainBalances) (token : StateTokenBalance)
      (usdc : Option String) (usdc_raw st_raw : Option ℤ)
      → s.chain_balances ≡ some b
      → b.state_token ≡ some token
      → deps.usdc_address ≡ usdc
      → big_int (given b.usdc_balance_raw) ≡ usdc_raw
      → big_int (given token.balance_raw) ≡ st_raw
      → is_cooling tick cfg.cooldown_ticks s.last_auto_swap_tick ≡ false
      → (is_below cfg b.liquid_reserve_ratio || is_above cfg b.liquid_reserve_ratio) ≡ true
      → AsksAllowed deps tick cfg s (trade deps tick cfg s swap b token usdc usdc_raw st_raw)
  unfolding trade
  trade-AsksAllowed swap b token none ur sr h k l m n rested out = inl refl
  trade-AsksAllowed swap b token (some usdc) none sr h k l m n rested out = inl refl
  trade-AsksAllowed swap b token (some usdc) (some ur) none h k l m n rested out = inl refl
  trade-AsksAllowed swap b token (some usdc) (some ur) (some sr) h k l m n rested out =
      let o : SwapOrder = order_for cfg b token usdc ur sr in
      elim (Bool-cases (is_zero o.amount)) [
        | inl e ↦ rw e (inl refl)
        | inr e ↦ rw e (
            inr (
              o,
              place_swap-orders deps tick s usdc token o (swap o),
              record {
                b = b;
                token = token;
                usdc = usdc;
                usdc_raw = ur;
                st_raw = sr;
                read = h;
                deployed = k;
                known = l;
                usdc_read = m;
                st_read = n;
                rested = rested;
                nonzero = e;
                leads_back = order_for-LeadsBack cfg b token usdc ur sr out;
              },
            ))
      ]

  rebalance_token-AsksAllowed :
      (swap : SwapOrder → Option SwapResult) (b : ChainBalances) (token : Option StateTokenBalance)
      → s.chain_balances ≡ some b
      → b.state_token ≡ token
      → is_cooling tick cfg.cooldown_ticks s.last_auto_swap_tick ≡ false
      → (is_below cfg b.liquid_reserve_ratio || is_above cfg b.liquid_reserve_ratio) ≡ true
      → AsksAllowed deps tick cfg s (rebalance_token deps tick cfg s swap b token)
  unfolding rebalance_token
  rebalance_token-AsksAllowed swap b none h k rested out = inl refl
  rebalance_token-AsksAllowed swap b (some token) h k rested out =
      trade-AsksAllowed swap b token deps.usdc_address _ _ h k refl refl refl rested out

  rebalance_with-AsksAllowed :
      (e : Option (SwapOrder → Option SwapResult)) (c : Option ChainBalances)
      → s.chain_balances ≡ c
      → AsksAllowed deps tick cfg s (rebalance_with deps tick cfg s e c)
  unfolding rebalance_with
  rebalance_with-AsksAllowed none c h = inl refl
  rebalance_with-AsksAllowed (some swap) none h = inl refl
  rebalance_with-AsksAllowed (some swap) (some b) h =
      elim (Bool-cases (is_cooling tick cfg.cooldown_ticks s.last_auto_swap_tick)) [
        | inl cooling ↦ rw cooling (inl refl)
        | inr rested ↦
            elim (Bool-cases
              (is_below cfg b.liquid_reserve_ratio || is_above cfg b.liquid_reserve_ratio)) [
                | inl out ↦
                    rw (rested, out)
                      (rebalance_token-AsksAllowed swap b b.state_token h refl rested out)
                | inr within ↦ rw (rested, within) (inl refl)
              ]
      ]

  -- A rebalancing asks for at most one swap. It asks for one only where the reserve ratio of the
  -- last reading is outside the band and the agent has rested since its last swap; it sells its own
  -- token for USDC below the band and USDC for its token above it, a sum that is not zero, at most
  -- its balance and at most the larger of the two bounds of a swap, in the units of the token.
  pub maybe_auto_rebalance-AsksAllowed :
      AsksAllowed deps tick cfg s (maybe_auto_rebalance deps tick cfg s)
  unfolding maybe_auto_rebalance
  maybe_auto_rebalance-AsksAllowed =
      rebalance_with-AsksAllowed deps.swap_executor s.chain_balances refl
