-- ===== src/Agent/Swap/Handle/Protocol.antt =====
-- The status updates of handleNegotiateSwap.
use federated_reserve.Prelude.{ℕ, String, Option, none, some, List, true, string_eq}
use federated_reserve.Shared.Skills.{NegotiateSwapMessage, SwapProposal, SwapCounter}
use federated_reserve.Agent.Executor.Events.{
  TaskState, working, completed, failed, no_message, task,
}
use federated_reserve.Agent.Executor.Deps.{
  Deps, DataPart, Context, Action, accept_it, counter_it, reject_it, other, ReasonerDecision,
}
use federated_reserve.Agent.Swap.Decide.{decide_on_round}
use federated_reserve.Prelude.{◌∙◌, ◌≡◌, ◌⊎◌, inl, inr, refl, sym, subst}
use federated_reserve.Agent.Executor.Events.{outcome}
use federated_reserve.Agent.Executor.Events.Orderly.{
  orderly, orderly-emit, orderly-push, orderly-close, orderly-fail_task, orderly-threw,
  outcome-push, outcome-fail_task,
}
use federated_reserve.Agent.Swap.Settle.Protocol.{orderly-settle, outcome-settle}
use federated_reserve.Agent.Swap.Handle.{
  answer_counter, answer_proposal, answer_decided, handle_proposal, answer_their_counter,
  handle_continuation, handle_first, handle_message, handle_negotiate_swap, handle_parsed,
}

orderly-answer_counter :
    (d : Deps) (p : SwapProposal) (c : Option SwapCounter) → orderly (answer_counter d p c) ≡ true
unfolding answer_counter
orderly-answer_counter d p none = orderly-threw
orderly-answer_counter d p (some c) = simp (orderly-push, orderly-close)

orderly-answer_proposal :
    (d : Deps) (p : SwapProposal) (decision : ReasonerDecision) (a : Action)
    → orderly (answer_proposal d p decision a) ≡ true
unfolding answer_proposal
orderly-answer_proposal d p decision reject_it = simp (orderly-push, orderly-close)
orderly-answer_proposal d p decision accept_it = simp (orderly-push, orderly-settle)
orderly-answer_proposal d p decision counter_it = orderly-answer_counter d p _
orderly-answer_proposal d p decision other = orderly-answer_counter d p _

orderly-answer_decided :
    (d : Deps) (p : SwapProposal) (decision : Option ReasonerDecision)
    → orderly (answer_decided d p decision) ≡ true
unfolding answer_decided
orderly-answer_decided d p none = orderly-threw
orderly-answer_decided d p (some decision) =
    orderly-emit (task working no_message) _ refl
    ∙ orderly-answer_proposal d p decision decision.action

orderly-answer_their_counter :
    (d : Deps) (i rounds : ℕ) (c : SwapCounter) (decision : ReasonerDecision) (a : Action)
    → orderly (answer_their_counter d i rounds c decision a) ≡ true
unfolding answer_their_counter
orderly-answer_their_counter d i rounds c decision reject_it =
    simp (orderly-push, orderly-fail_task)
orderly-answer_their_counter d i rounds c decision accept_it = simp (orderly-push, orderly-settle)
orderly-answer_their_counter d i rounds c decision counter_it = simp (orderly-push, orderly-settle)
orderly-answer_their_counter d i rounds c decision other = simp (orderly-push, orderly-settle)

orderly-handle_continuation :
    (d : Deps) (i rounds : ℕ) (m : NegotiateSwapMessage)
    → orderly (handle_continuation d i rounds m) ≡ true
unfolding handle_continuation
orderly-handle_continuation d i rounds (NegotiateSwapMessage.reject r) =
    simp (orderly-push, orderly-fail_task)
orderly-handle_continuation d i rounds (NegotiateSwapMessage.accept a) =
    simp (orderly-push, orderly-settle)
orderly-handle_continuation d i rounds (NegotiateSwapMessage.counter c) =
    simp (orderly-push, orderly-answer_their_counter)
orderly-handle_continuation d i rounds (NegotiateSwapMessage.proposal p) = orderly-fail_task _ _

orderly-handle_first : (d : Deps) (m : NegotiateSwapMessage) → orderly (handle_first d m) ≡ true
unfolding handle_first handle_proposal
orderly-handle_first d (NegotiateSwapMessage.proposal p) =
    simp (orderly-push, orderly-answer_decided)
orderly-handle_first d (NegotiateSwapMessage.counter c) = orderly-fail_task _ _
orderly-handle_first d (NegotiateSwapMessage.accept a) = orderly-fail_task _ _
orderly-handle_first d (NegotiateSwapMessage.reject r) = orderly-fail_task _ _

orderly-handle_message :
    (d : Deps) (t : Option (Option (List (Option DataPart)))) (m : NegotiateSwapMessage)
    → orderly (handle_message d t m) ≡ true
unfolding handle_message
orderly-handle_message d none m = orderly-handle_first d m
orderly-handle_message d (some none) m = orderly-handle_continuation d _ _ m
orderly-handle_message d (some (some history)) m = orderly-handle_continuation d _ _ m

orderly-handle_parsed :
    (d : Deps) (t : Option (Option (List (Option DataPart)))) (error_message : String)
    (m : Option NegotiateSwapMessage)
    → orderly (handle_parsed d t error_message m) ≡ true
unfolding handle_parsed
orderly-handle_parsed d t error_message none = orderly-fail_task _ _
orderly-handle_parsed d t error_message (some m) = orderly-handle_message d t m

-- Whatever the model and the chain answer, a run on a negotiation message either throws, with no
-- update of its task before, or ends with one status update, final exactly where the state that it
-- names is terminal, directly before the one end of the answer.
pub orderly-handle_negotiate_swap :
    (d : Deps) (ctx : Context) (part : DataPart) → orderly (handle_negotiate_swap d ctx part) ≡ true
unfolding handle_negotiate_swap
orderly-handle_negotiate_swap d ctx part =
    orderly-handle_parsed d ctx.task part.error_message part.as_swap

abbrev pub IsFinal : Option TaskState → Type 0
IsFinal o = (o ≡ some completed) ⊎ (o ≡ some failed)

IsFinal-answer_their_counter :
    (d : Deps) (i rounds : ℕ) (c : SwapCounter) (decision : ReasonerDecision) (a : Action)
    → IsFinal (outcome (answer_their_counter d i rounds c decision a))
unfolding answer_their_counter
IsFinal-answer_their_counter d i rounds c decision reject_it =
    inr (simp (outcome-push, outcome-fail_task))
IsFinal-answer_their_counter d i rounds c decision accept_it =
    inl (simp (outcome-push, outcome-settle))
IsFinal-answer_their_counter d i rounds c decision counter_it =
    inl (simp (outcome-push, outcome-settle))
IsFinal-answer_their_counter d i rounds c decision other = inl (simp (outcome-push, outcome-settle))

IsFinal-handle_continuation :
    (d : Deps) (i rounds : ℕ) (m : NegotiateSwapMessage)
    → IsFinal (outcome (handle_continuation d i rounds m))
unfolding handle_continuation
IsFinal-handle_continuation d i rounds (NegotiateSwapMessage.reject r) =
    inr (simp (outcome-push, outcome-fail_task))
IsFinal-handle_continuation d i rounds (NegotiateSwapMessage.accept a) =
    inl (simp (outcome-push, outcome-settle))
IsFinal-handle_continuation d i rounds (NegotiateSwapMessage.counter c) =
    subst IsFinal (sym (outcome-push d.telemetry _ _))
      (IsFinal-answer_their_counter d i rounds c (decide_on_round d c rounds) _)
IsFinal-handle_continuation d i rounds (NegotiateSwapMessage.proposal p) =
    inr (outcome-fail_task _ _)

IsFinal-handle_message :
    (d : Deps) (t : Option (List (Option DataPart))) (m : NegotiateSwapMessage)
    → IsFinal (outcome (handle_message d (some t) m))
unfolding handle_message
IsFinal-handle_message d none m = IsFinal-handle_continuation d _ _ m
IsFinal-handle_message d (some history) m = IsFinal-handle_continuation d _ _ m

IsFinal-handle_parsed :
    (d : Deps) (t : Option (List (Option DataPart))) (error_message : String)
    (m : Option NegotiateSwapMessage)
    → IsFinal (outcome (handle_parsed d (some t) error_message m))
unfolding handle_parsed
IsFinal-handle_parsed d t error_message none = inr (outcome-fail_task _ _)
IsFinal-handle_parsed d t error_message (some m) = IsFinal-handle_message d t m

-- The answer to a negotiation message on a task that exists leaves the task completed or failed,
-- never waiting for a further message, whatever the model and the chain answer.
pub outcome-handle_negotiate_swap-IsFinal :
    (d : Deps) (ctx : Context) (part : DataPart) (t : Option (List (Option DataPart)))
    → ctx.task ≡ some t
    → IsFinal (outcome (handle_negotiate_swap d ctx part))
unfolding handle_negotiate_swap
outcome-handle_negotiate_swap-IsFinal d ctx part t h =
    subst (λ x. IsFinal (outcome (handle_parsed d x part.error_message part.as_swap))) (sym h)
      (IsFinal-handle_parsed d t part.error_message part.as_swap)
