-- ===== src/Agent/Swap/Handle.antt =====
-- `handleNegotiateSwap` of packages/agent/src/a2a/executor.ts.
pub mod Protocol
pub mod Spending
use federated_reserve.Prelude.{
  ℕ, ◌-◌, String, Option, none, some, List, [], ◌∷◌, ◌++◌, Bool, true, false, if◌then◌else◌, leb,
  ◌==◌, string_eq, length, or_else, is_some, ◌>>=◌,
}
use federated_reserve.Prelude.Int.{scale}
use federated_reserve.Shared.Text.{Text, lit, plain, slice}
use federated_reserve.Shared.BigInt.{AmountText, given, of_int, big_int}
use federated_reserve.Shared.Skills.{
  AssetAmount, NegotiateSwapMessage, SwapProposal, SwapCounter, SwapTxLeg, SwapSettlement,
}
use federated_reserve.Agent.Executor.Events.{
  Payload, Stage, Terms, no_terms, NegotiationRound, Event, Run, TaskState, working, input_required,
  completed, failed, no_message, text, swap_counter, swap_settlement, proposal, counter, accept,
  reject, settlement, task, status, swap_executed, emit, send, push, threw, close, fail_task,
}
use federated_reserve.Agent.Executor.Deps.{
  Deps, DataPart, Context, Action, accept_it, counter_it, reject_it, other, ReasonerDecision,
  SwapQuestion,
}
use federated_reserve.Agent.Executor.Chain.{execute_responder_leg}
use federated_reserve.Agent.Swap.Decide.{
  decide_on_proposal, decide_on_counter, decide_on_round, counter_terms, max_negotiation_rounds,
}
use federated_reserve.Agent.Swap.Settle.{settle, on_terms, from_them, to_them}

answer_counter : Deps → SwapProposal → Option SwapCounter → Run
answer_counter d p none = threw
answer_counter d p (some c) =
    push d.telemetry (to_them d p.initiator_fips 1 counter c.rationale (on_terms c.give c.receive))
      (close input_required (swap_counter c) false)

-- The answer to a proposal, by the action that was decided on.
answer_proposal : Deps → SwapProposal → ReasonerDecision → Action → Run
unfolding answer_counter
answer_proposal d p decision reject_it =
    push d.telemetry (to_them d p.initiator_fips 1 reject decision.rationale no_terms)
      (close failed (text (lit "rejected: " ∷ decision.rationale)) true)
answer_proposal d p decision accept_it =
    push d.telemetry
      (to_them d p.initiator_fips 1 accept decision.rationale (on_terms p.give p.receive))
      (settle d p.initiator_fips p.give p.receive 1)
answer_proposal d p decision _ = answer_counter d p (counter_terms d p decision)

answer_decided : Deps → SwapProposal → Option ReasonerDecision → Run
unfolding answer_proposal
answer_decided d p none = threw
answer_decided d p (some decision) =
    emit (task working no_message) (answer_proposal d p decision decision.action)

pub handle_proposal : Deps → SwapProposal → Run
unfolding answer_decided
handle_proposal d p =
    push d.telemetry
      (from_them d p.initiator_fips 1 proposal (plain p.rationale) (on_terms p.give p.receive))
      (answer_decided d p (decide_on_proposal d p))

answer_their_counter : Deps → ℕ → ℕ → SwapCounter → ReasonerDecision → Action → Run
answer_their_counter d initiator_fips rounds c decision reject_it =
    push d.telemetry (to_them d initiator_fips rounds reject decision.rationale no_terms)
      (fail_task true (lit "counter rejected: " ∷ decision.rationale))
answer_their_counter d initiator_fips rounds c decision _ =
    push d.telemetry
      (to_them d initiator_fips rounds accept decision.rationale (on_terms c.give c.receive))
      (settle d initiator_fips c.give c.receive rounds)

-- A message on a task that exists, from the initiator of its proposal.
pub handle_continuation : Deps → ℕ → ℕ → NegotiateSwapMessage → Run
unfolding answer_their_counter
handle_continuation d initiator_fips rounds (NegotiateSwapMessage.reject r) =
    push d.telemetry (from_them d initiator_fips rounds reject (plain r.reason) no_terms)
      (fail_task true (lit "initiator rejected: " ∷ lit r.reason ∷ []))
handle_continuation d initiator_fips rounds (NegotiateSwapMessage.accept a) =
    push d.telemetry
      (from_them d initiator_fips rounds accept (plain "initiator accepted; settling")
        (on_terms a.agreed_give a.agreed_receive))
      (settle d initiator_fips a.agreed_give a.agreed_receive rounds)
handle_continuation d initiator_fips rounds (NegotiateSwapMessage.counter c) =
    let decision = decide_on_round d c rounds in
    push d.telemetry
      (from_them d initiator_fips rounds counter c.rationale (on_terms c.give c.receive))
      (answer_their_counter d initiator_fips rounds c decision decision.action)
handle_continuation d initiator_fips rounds (NegotiateSwapMessage.proposal p) =
    fail_task true (plain "unexpected continuation kind: proposal")

abbrev kind_name : NegotiateSwapMessage → String
kind_name (NegotiateSwapMessage.proposal _) = "proposal"
kind_name (NegotiateSwapMessage.counter _) = "counter"
kind_name (NegotiateSwapMessage.accept _) = "accept"
kind_name (NegotiateSwapMessage.reject _) = "reject"

-- The first message of a task.
handle_first : Deps → NegotiateSwapMessage → Run
unfolding handle_proposal
handle_first d (NegotiateSwapMessage.proposal p) = handle_proposal d p
handle_first d m =
    fail_task false (lit "first message must be a proposal, got " ∷ lit (kind_name m) ∷ [])

-- Who proposed, by the first proposal of the history; 0 where there is none.
pub find_initiator_fips : List (Option DataPart) → ℕ
find_initiator_fips [] = 0
find_initiator_fips (none ∷ messages) = find_initiator_fips messages
find_initiator_fips (some part ∷ messages) = elim part.as_swap [
  | some (NegotiateSwapMessage.proposal p) ↦ p.initiator_fips
  | _ ↦ find_initiator_fips messages
]

pub handle_message : Deps → Option (Option (List (Option DataPart))) → NegotiateSwapMessage → Run
unfolding handle_first handle_continuation find_initiator_fips
handle_message d none m = handle_first d m
handle_message d (some none) m = handle_continuation d 0 1 m
handle_message d (some (some history)) m =
    handle_continuation d (find_initiator_fips history) (length history) m

handle_parsed :
    Deps → Option (Option (List (Option DataPart))) → String → Option NegotiateSwapMessage → Run
unfolding handle_message
handle_parsed d t error_message none =
    fail_task (is_some t) (lit "invalid negotiation payload: " ∷ lit error_message ∷ [])
handle_parsed d t error_message (some m) = handle_message d t m

pub handle_negotiate_swap : Deps → Context → DataPart → Run
unfolding handle_parsed
handle_negotiate_swap d ctx part = handle_parsed d ctx.task part.error_message part.as_swap
