-- ===== src/Agent/Swap/Decide.antt =====
-- The decisions on the terms of a swap, in packages/agent/src/a2a/executor.ts.
pub mod Haircut
use federated_reserve.Prelude.{
  ℕ, ◌-◌, String, Option, none, some, List, [], ◌∷◌, ◌++◌, Bool, true, false, if◌then◌else◌, leb,
  ◌==◌, string_eq, length, or_else, is_some, ◌>>=◌,
}
use federated_reserve.Prelude.Int.{scale}
use federated_reserve.Shared.Text.{Text, lit, plain, slice}
use federated_reserve.Shared.BigInt.{AmountText, given, of_int, big_int}
use federated_reserve.Shared.Skills.{
  AssetAmount, NegotiateSwapMessage, SwapProposal, SwapCounter, SwapTxLeg, SwapSettlement,
}
use federated_reserve.Agent.Executor.Events.{
  Payload, Stage, Terms, no_terms, NegotiationRound, Event, Run, TaskState, working, input_required,
  completed, failed, no_message, text, swap_counter, swap_settlement, proposal, counter, accept,
  reject, settlement, task, status, swap_executed, emit, send, push, threw, close, fail_task,
}
use federated_reserve.Agent.Executor.Deps.{
  Deps, DataPart, Context, Action, accept_it, counter_it, reject_it, other, ReasonerDecision,
  SwapQuestion,
}
use federated_reserve.Agent.Executor.Chain.{execute_responder_leg}

abbrev pub max_negotiation_rounds : ℕ
max_negotiation_rounds = 3

-- `none` is the error of `BigInt` on a text that is no integer.
unfoldable pub apply_bps_haircut : AmountText → ℕ → Option AmountText
unfolding big_int
apply_bps_haircut amount bps = big_int amount >>= λ z. some (of_int (scale (10000 - bps) 10000 z))

haircut : AssetAmount → Option AssetAmount
unfolding apply_bps_haircut
haircut a =
    apply_bps_haircut a.amount 500 >>= λ amount. some (record { asset = a.asset; amount = amount })

proposal_question : SwapProposal → SwapQuestion
proposal_question p = record {
  is_proposal = true;
  their_give = p.give;
  their_receive = p.receive;
  their_rationale = plain p.rationale;
  round = 1;
}

unfoldable pub ask_on_proposal : Deps → SwapProposal → Option ReasonerDecision
unfolding proposal_question
ask_on_proposal d p = d.reasoner >>= λ r. r.swap (proposal_question p)

-- The model's decision, else a counter with the haircut, which throws where `haircut` does.
decide_from : Deps → SwapProposal → Option ReasonerDecision → Option ReasonerDecision
unfolding haircut
decide_from d p (some decision) = some decision
decide_from d p none = haircut p.receive >>= λ give. some (record {
  action = counter_it;
  give = some give;
  receive = some p.give;
  rationale = lit d.abbr ∷ lit " counter: 500bps haircut on receive leg vs initial proposal." ∷ [];
})

-- The decision on a proposal; `none` where the deterministic one throws.
pub decide_on_proposal : Deps → SwapProposal → Option ReasonerDecision
unfolding ask_on_proposal decide_from
decide_on_proposal d p = decide_from d p (ask_on_proposal d p)

pub decide_on_counter : Deps → SwapCounter → ℕ → ReasonerDecision
decide_on_counter d c rounds =
    let question : SwapQuestion = record {
      is_proposal = false;
      their_give = c.give;
      their_receive = c.receive;
      their_rationale = c.rationale;
      round = rounds;
    } in
    or_else (d.reasoner >>= λ r. r.swap question) (record {
      action = accept_it;
      give = none;
      receive = none;
      rationale = plain "deterministic fallback: accept after round 2";
    })

-- The terms of a counter: what the decision names, else the proposal's, the amount that this state
-- gives reduced by 500 basis points.
pub counter_terms : Deps → SwapProposal → ReasonerDecision → Option SwapCounter
unfolding haircut
counter_terms d p decision =
    elim decision.give [ some give ↦ some give | none ↦ haircut p.receive ] >>= λ give.
    some (record {
      responder_fips = d.fips;
      give = give;
      receive = or_else decision.receive p.give;
      rationale = decision.rationale;
    })

-- The decision on a counter: at the cap on rounds it is accepted without a question.
pub decide_on_round : Deps → SwapCounter → ℕ → ReasonerDecision
unfolding decide_on_counter
decide_on_round d c rounds =
    if leb max_negotiation_rounds rounds
    then (record {
      action = accept_it;
      give = none;
      receive = none;
      rationale = plain "round cap reached, accepting";
    })
    else decide_on_counter d c rounds
