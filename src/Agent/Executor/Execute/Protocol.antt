-- ===== src/Agent/Executor/Execute/Protocol.antt =====
-- The status updates of execute.
use federated_reserve.Prelude.{
  ◌≡◌, inl, inr, String, Option, none, some, Bool, true, nat_eq, string_eq, Bool-cases,
}
use federated_reserve.Shared.Skills.{
  SkillEnvelope, coalition_invite, coalition_revised_invite, bond_bid, aid_request, shock_signal,
  BondBid, BondAward,
}
use federated_reserve.Agent.Executor.Events.Orderly.{orderly, orderly-close, orderly-fail_task}
use federated_reserve.Agent.Executor.Deps.{Deps, DataPart, Context}
use federated_reserve.Agent.Swap.Handle.Protocol.{orderly-handle_negotiate_swap}
use federated_reserve.Agent.Executor.Coalition.Protocol.{
  orderly-handle_coalition_invite, orderly-handle_coalition_revised_invite,
}
use federated_reserve.Agent.Executor.Bond.Protocol.{orderly-handle_bond_bid}
use federated_reserve.Agent.Executor.Aid.Protocol.{orderly-handle_aid_request}
use federated_reserve.Agent.Executor.Shock.Protocol.{orderly-handle_shock_signal}
use federated_reserve.Agent.Executor.Execute.{
  cancel_task, handle_skill, handle_envelope, handle_part, execute,
}

orderly-handle_skill :
    (d : Deps) (award : BondBid → BondAward) (has_task : Bool) (env : SkillEnvelope)
    → orderly (handle_skill d award has_task env) ≡ true
unfolding handle_skill
orderly-handle_skill d award t (coalition_invite env) = orderly-handle_coalition_invite d env
orderly-handle_skill d award t (coalition_revised_invite env) =
    orderly-handle_coalition_revised_invite d t env
orderly-handle_skill d award t (bond_bid env) = orderly-handle_bond_bid d env (award env)
orderly-handle_skill d award t (aid_request env) = orderly-handle_aid_request d env
orderly-handle_skill d award t (shock_signal env) = orderly-handle_shock_signal d env

orderly-handle_envelope :
    (d : Deps) (award : BondBid → BondAward) (has_task : Bool) (error_message : String)
    (env : Option SkillEnvelope)
    → orderly (handle_envelope d award has_task error_message env) ≡ true
unfolding handle_envelope
orderly-handle_envelope d award t error_message none = orderly-fail_task _ _
orderly-handle_envelope d award t error_message (some env) = orderly-handle_skill d award t env

orderly-handle_part :
    (d : Deps) (award : BondBid → BondAward) (ctx : Context) (part : Option DataPart)
    → orderly (handle_part d award ctx part) ≡ true
unfolding handle_part
orderly-handle_part d award ctx none = orderly-fail_task _ _
orderly-handle_part d award ctx (some part) = elim (Bool-cases part.skill_is_string) [
  | inl e ↦ simp (e, orderly-handle_envelope)
  | inr e ↦ simp (e, orderly-handle_negotiate_swap)
]

-- Whatever message reaches the agent, and whatever the model, the chain and the auction answer, the
-- run either throws with no status update before, or publishes exactly one status update, final
-- exactly where its state is terminal, and ends its answer once, directly after it.
pub orderly-execute :
    (d : Deps) (award : BondBid → BondAward) (ctx : Context) → orderly (execute d award ctx) ≡ true
unfolding execute
orderly-execute d award ctx = orderly-handle_part d award ctx ctx.message

pub orderly-cancel_task : orderly cancel_task ≡ true
unfolding cancel_task
orderly-cancel_task = simp orderly-close
