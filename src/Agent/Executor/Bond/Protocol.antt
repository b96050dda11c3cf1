-- ===== src/Agent/Executor/Bond/Protocol.antt =====
-- The status updates of handleBondBid.
use federated_reserve.Prelude.{◌≡◌, ◌∙◌, refl, true, nat_eq, string_eq}
use federated_reserve.Shared.Skills.{BondBid, BondAward}
use federated_reserve.Agent.Executor.Events.{working, no_message, task}
use federated_reserve.Agent.Executor.Events.Orderly.{
  orderly, orderly-emit, orderly-push, orderly-close,
}
use federated_reserve.Agent.Executor.Deps.{Deps}
use federated_reserve.Agent.Executor.Bond.{handle_bond_bid}

pub orderly-handle_bond_bid :
    (d : Deps) (env : BondBid) (award : BondAward) → orderly (handle_bond_bid d env award) ≡ true
unfolding handle_bond_bid
orderly-handle_bond_bid d env award =
    orderly-emit (task working no_message) _ refl ∙ simp (orderly-push, orderly-close)
