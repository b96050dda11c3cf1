-- ===== src/Agent/Rebalance/Cooldown.antt =====
-- How often maybeAutoRebalance of packages/agent/src/tick.ts trades.
use federated_reserve.Prelude.{
  ℕ, ◌+◌, ◌≤◌, ◌<◌, String, Option, none, some, [], ◌≡◌, ◌∙◌, refl, ap, true, ◌⊎◌, inl, inr, ◌||◌,
  Bool-cases, arith,
}
use federated_reserve.Prelude.Int.{ℤ, pos}
use federated_reserve.Agent.State.{
  AgentState, ChainBalances, StateTokenBalance, apply_chain_balances,
}
use federated_reserve.Agent.Rebalance.{
  RebalanceConfig, SwapOrder, SwapResult, RebalanceDeps, Rebalanced, is_cooling, is_below, is_above,
  is_zero, order_for, place_swap, trade, rebalance_token, rebalance_with, maybe_auto_rebalance,
  refreshed,
}

module _ (deps : RebalanceDeps) (tick : ℕ) (cfg : RebalanceConfig) (s : AgentState) where
  -- No swap is reported, or the tick is left as that of the last swap.
  abbrev Dates : Rebalanced → Type 0
  Dates r = (r.reports ≡ []) ⊎ (r.state.last_auto_swap_tick ≡ some (pos tick))

  refreshed-tick :
      (reader : Option (Option ChainBalances)) (t : AgentState)
      → (refreshed reader t).last_auto_swap_tick ≡ t.last_auto_swap_tick
  unfolding refreshed apply_chain_balances
  refreshed-tick none t = refl
  refreshed-tick (some none) t = refl
  refreshed-tick (some (some next)) t = refl

  place_swap-Dates :
      (usdc : String) (token : StateTokenBalance) (o : SwapOrder) (r : Option SwapResult)
      → Dates (place_swap deps tick s usdc token o r)
  unfolding place_swap
  place_swap-Dates usdc token o none = inl refl
  place_swap-Dates usdc token o (some result) = inr (refreshed-tick deps.chain_reader _)

  trade-Dates :
      (swap : SwapOrder → Option SwapResult) (b : ChainBalances) (token : StateTokenBalance)
      (usdc : Option String) (usdc_raw st_raw : Option ℤ)
      → Dates (trade deps tick cfg s swap b token usdc usdc_raw st_raw)
  unfolding trade
  trade-Dates swap b token none ur sr = inl refl
  trade-Dates swap b token (some usdc) none sr = inl refl
  trade-Dates swap b token (some usdc) (some ur) none = inl refl
  trade-Dates swap b token (some usdc) (some ur) (some sr) =
      let o : SwapOrder = order_for cfg b token usdc ur sr in
      elim (Bool-cases (is_zero o.amount)) [
        | inl e ↦ rw e (inl refl)
        | inr e ↦ rw e (place_swap-Dates usdc token o (swap o))
      ]

  rebalance_token-Dates :
      (swap : SwapOrder → Option SwapResult) (b : ChainBalances) (token : Option StateTokenBalance)
      → Dates (rebalance_token deps tick cfg s swap b token)
  unfolding rebalance_token
  rebalance_token-Dates swap b none = inl refl
  rebalance_token-Dates swap b (some token) = trade-Dates swap b token deps.usdc_address _ _

  rebalance_with-Dates :
      (e : Option (SwapOrder → Option SwapResult)) (c : Option ChainBalances)
      → Dates (rebalance_with deps tick cfg s e c)
  unfolding rebalance_with
  rebalance_with-Dates none c = inl refl
  rebalance_with-Dates (some swap) none = inl refl
  rebalance_with-Dates (some swap) (some b) =
      elim (Bool-cases (is_cooling tick cfg.cooldown_ticks s.last_auto_swap_tick)) [
        | inl cooling ↦ rw cooling (inl refl)
        | inr rested ↦
            elim (Bool-cases
              (is_below cfg b.liquid_reserve_ratio || is_above cfg b.liquid_reserve_ratio)) [
                | inl out ↦ rw (rested, out) (rebalance_token-Dates swap b b.state_token)
                | inr within ↦ rw (rested, within) (inl refl)
              ]
      ]

  maybe_auto_rebalance-Dates : Dates (maybe_auto_rebalance deps tick cfg s)
  unfolding maybe_auto_rebalance
  maybe_auto_rebalance-Dates = rebalance_with-Dates deps.swap_executor s.chain_balances

cooling-orders :
    (deps : RebalanceDeps) (tick : ℕ) (cfg : RebalanceConfig) (s : AgentState)
    (e : Option (SwapOrder → Option SwapResult)) (c : Option ChainBalances)
    → is_cooling tick cfg.cooldown_ticks s.last_auto_swap_tick ≡ true
    → (rebalance_with deps tick cfg s e c).orders ≡ []
unfolding rebalance_with
cooling-orders deps tick cfg s none c h = refl
cooling-orders deps tick cfg s (some swap) none h = refl
cooling-orders deps tick cfg s (some swap) (some b) h = rw h refl

-- Where a rebalancing at a positive tick reports a swap, no rebalancing of an agent that remembers
-- it asks for one before the cooldown is over.
pub maybe_auto_rebalance-rests :
    (deps later_deps : RebalanceDeps) (tick later : ℕ) (cfg : RebalanceConfig) (s t : AgentState)
    → 1 ≤ tick
    → later < tick + cfg.cooldown_ticks
    → t.last_auto_swap_tick ≡ (maybe_auto_rebalance deps tick cfg s).state.last_auto_swap_tick
    → ((maybe_auto_rebalance deps tick cfg s).reports ≡ [])
      ⊎ ((maybe_auto_rebalance later_deps later cfg t).orders ≡ [])
unfolding maybe_auto_rebalance is_cooling
maybe_auto_rebalance-rests deps later_deps tick later cfg s t first soon same =
    elim (maybe_auto_rebalance-Dates deps tick cfg s) [
      | inl quiet ↦ inl quiet
      | inr dated ↦ inr (rests (same ∙ dated))
    ]
  where
    rests :
        t.last_auto_swap_tick ≡ some (pos tick)
        → (maybe_auto_rebalance later_deps later cfg t).orders ≡ []
    rests e =
        cooling-orders later_deps later cfg t later_deps.swap_executor t.chain_balances
          (ap (is_cooling later cfg.cooldown_ticks) e ∙ cools)
      where
        cools : is_cooling later cfg.cooldown_ticks (some (pos tick)) ≡ true
        cools = ground (arith, first, soon)
