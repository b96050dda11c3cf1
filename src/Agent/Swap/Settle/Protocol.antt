-- ===== src/Agent/Swap/Settle/Protocol.antt =====
-- The events and the transactions of makeSettlement.
use federated_reserve.Prelude.{ℕ, Option, none, some, true, ◌==◌, string_eq}
use federated_reserve.Shared.Skills.{AssetAmount, SwapTxLeg}
use federated_reserve.Agent.Executor.Events.{Run, completed, swap_executed}
use federated_reserve.Agent.Executor.Deps.{Deps}
use federated_reserve.Agent.Executor.Chain.{execute_responder_leg}
use federated_reserve.Prelude.{◌≡◌, refl, inl, inr, Bool-cases, append-nil}
use federated_reserve.Agent.Executor.Events.{outcome}
use federated_reserve.Agent.Executor.Events.Orderly.{
  orderly, orderly-emit, orderly-send, orderly-push, orderly-close, outcome-emit, outcome-send,
  outcome-push, outcome-close,
}
use federated_reserve.Agent.Executor.Events.Calls.{
  calls, calls-emit, calls-push, calls-send, calls-close,
}
use federated_reserve.Agent.Swap.Settle.{settle, report_swap}

module _ (d : Deps) (initiator_fips : ℕ) (give receive : AssetAmount) where
  orderly-report_swap :
      (leg : Option SwapTxLeg) (r : Run)
      → orderly (report_swap d initiator_fips give receive leg r) ≡ orderly r
  unfolding report_swap
  orderly-report_swap none r = refl
  orderly-report_swap (some leg) r = elim (Bool-cases (leg.tx_hash == "")) [
    | inl e ↦ rw e refl
    | inr e ↦ elim (Bool-cases d.telemetry) [
      | inl h ↦ rw (e, h) (orderly-emit (swap_executed _) r refl)
      | inr h ↦ rw (e, h) refl
    ]
  ]

  outcome-report_swap :
      (leg : Option SwapTxLeg) (r : Run)
      → outcome (report_swap d initiator_fips give receive leg r) ≡ outcome r
  unfolding report_swap
  outcome-report_swap none r = refl
  outcome-report_swap (some leg) r = elim (Bool-cases (leg.tx_hash == "")) [
    | inl e ↦ rw e refl
    | inr e ↦ elim (Bool-cases d.telemetry) [
      | inl h ↦ rw (e, h) (outcome-emit (swap_executed _) r refl)
      | inr h ↦ rw (e, h) refl
    ]
  ]

  calls-report_swap :
      (leg : Option SwapTxLeg) (r : Run)
      → calls (report_swap d initiator_fips give receive leg r) ≡ calls r
  unfolding report_swap
  calls-report_swap none r = refl
  calls-report_swap (some leg) r = elim (Bool-cases (leg.tx_hash == "")) [
    | inl e ↦ rw e refl
    | inr e ↦ elim (Bool-cases d.telemetry) [
      | inl h ↦ rw (e, h) (calls-emit (swap_executed _) r refl)
      | inr h ↦ rw (e, h) refl
    ]
  ]

  pub orderly-settle : (rounds : ℕ) → orderly (settle d initiator_fips give receive rounds) ≡ true
  unfolding settle
  orderly-settle rounds = simp (orderly-send, orderly-push, orderly-report_swap, orderly-close)

  pub outcome-settle :
      (rounds : ℕ) → outcome (settle d initiator_fips give receive rounds) ≡ some completed
  unfolding settle
  outcome-settle rounds = simp (outcome-send, outcome-push, outcome-report_swap, outcome-close)

  pub calls-settle :
      (rounds : ℕ)
      → calls (settle d initiator_fips give receive rounds)
        ≡ (execute_responder_leg d initiator_fips give receive).0
  unfolding settle
  calls-settle rounds = simp (calls-send, calls-push, calls-report_swap, calls-close, append-nil)
