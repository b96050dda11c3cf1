-- ===== src/Agent/Swap/Decide/Haircut.antt =====
-- The counter that a state makes without its model.
use federated_reserve.Prelude.{
  ℕ, ◌+◌, ◌*◌, ◌/◌, ◌≤◌, ◌<◌, ◌≡◌, refl, sym, subst, Option, none, some, arith,
}
use federated_reserve.Prelude.Int.{pos}
use federated_reserve.Shared.BigInt.{of_int, big_int}
use federated_reserve.Shared.Skills.{SwapProposal}
use federated_reserve.Agent.Executor.Deps.{Deps, counter_it, ReasonerDecision}
use federated_reserve.Agent.Swap.Decide.{
  apply_bps_haircut, haircut, ask_on_proposal, decide_from, decide_on_proposal,
}

-- A counter that takes what is given, and gives 95 percent of the `asked` base units, rounded down.
pub IsReduced : ℕ → SwapProposal → Option ReasonerDecision → Type 0
IsReduced asked p none = ⊥
IsReduced asked p (some decision) =
    (m : ℕ) × (decision.action ≡ counter_it)
    × (decision.receive ≡ some p.give)
    × (decision.give ≡ some (record { asset = p.receive.asset; amount = of_int (pos m) }))
    × (10000 * m ≤ 9500 * asked)
    × (9500 * asked < 10000 * m + 10000)

-- With no model, or one that fails, a proposal that asks for a well-formed, non-negative number of
-- base units is countered: the state takes what is given, and gives 95 percent of what is asked,
-- rounded down.
pub decide_on_proposal-IsReduced :
    (d : Deps) (p : SwapProposal) (asked : ℕ)
    → ask_on_proposal d p ≡ none
    → big_int p.receive.amount ≡ some (pos asked)
    → IsReduced asked p (decide_on_proposal d p)
unfolding decide_on_proposal decide_from haircut apply_bps_haircut IsReduced
decide_on_proposal-IsReduced d p asked e h =
    subst (λ x. IsReduced asked p (decide_from d p x)) (sym e)
      (rw h (asked * 9500 / 10000, refl, refl, refl, omega arith, omega arith))
