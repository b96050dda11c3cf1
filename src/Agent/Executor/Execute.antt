-- ===== src/Agent/Executor/Execute.antt =====
-- The entry points of the executor in packages/agent/src/a2a/executor.ts.
pub mod Protocol
use federated_reserve.Prelude.{
  ℕ, zero, suc, ◌+◌, ◌-◌, ◌*◌, ◌/◌, ◌≤◌, ◌<◌, ◌≡◌, ◌∙◌, ◌⊎◌, inl, inr, refl, sym, subst, String,
  Option, none, some, List, [], ◌∷◌, ◌++◌, Bool, true, false, ◌||◌, if◌then◌else◌, ltb, leb, ◌==◌,
  nat_eq, string_eq, or_else, is_some, contains, ◌>>=◌, arith, Bool-cases, Option-cases, ltb→lt,
  append-nil, length, All, find,
}
use federated_reserve.Shared.Text.{Text, lit, num, dollars, plain, slice}
use federated_reserve.Shared.Skills.{
  SkillEnvelope, coalition_invite, coalition_revised_invite, bond_bid, aid_request, shock_signal,
  BondBid, BondAward,
}
use federated_reserve.Agent.Executor.Events.{
  Payload, Stage, Terms, no_terms, NegotiationRound, Event, Run, TaskState, working, input_required,
  completed, failed, canceled, no_message, text, coalition_response, bond_award, aid_response,
  shock_contribution, proposal, counter, accept, reject, coalition_join, coalition_decline,
  coalition_counter, task, status, finished, emit, send, push, threw, close, fail_task, outcome,
}
use federated_reserve.Agent.Executor.Deps.{Deps, DataPart, Context}
use federated_reserve.Agent.Swap.Handle.{handle_negotiate_swap}
use federated_reserve.Agent.Executor.Coalition.{
  handle_coalition_invite, handle_coalition_revised_invite,
}
use federated_reserve.Agent.Executor.Bond.{handle_bond_bid}
use federated_reserve.Agent.Executor.Aid.{handle_aid_request}
use federated_reserve.Agent.Executor.Shock.{handle_shock_signal}

-- `cancelTask`
pub cancel_task : Run
cancel_task = close canceled no_message true

-- `award` is what the registry answers to a bid.
handle_skill : Deps → (BondBid → BondAward) → Bool → SkillEnvelope → Run
handle_skill d award has_task (coalition_invite env) = handle_coalition_invite d env
handle_skill d award has_task (coalition_revised_invite env) =
    handle_coalition_revised_invite d has_task env
handle_skill d award has_task (bond_bid env) = handle_bond_bid d env (award env)
handle_skill d award has_task (aid_request env) = handle_aid_request d env
handle_skill d award has_task (shock_signal env) = handle_shock_signal d env

handle_envelope : Deps → (BondBid → BondAward) → Bool → String → Option SkillEnvelope → Run
unfolding handle_skill
handle_envelope d award has_task error_message none =
    fail_task has_task (lit "invalid skill envelope: " ∷ lit error_message ∷ [])
handle_envelope d award has_task error_message (some env) = handle_skill d award has_task env

handle_part : Deps → (BondBid → BondAward) → Context → Option DataPart → Run
unfolding handle_envelope
handle_part d award ctx none = fail_task (is_some ctx.task) (plain "no DataPart in user message")
handle_part d award ctx (some part) =
    if part.skill_is_string
    then handle_envelope d award (is_some ctx.task) part.error_message part.as_skill
    else handle_negotiate_swap d ctx part

pub execute : Deps → (BondBid → BondAward) → Context → Run
unfolding handle_part
execute d award ctx = handle_part d award ctx ctx.message
