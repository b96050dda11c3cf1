-- ===== src/Agent/Swap/Handle/Spending.antt =====
-- The transactions of handleNegotiateSwap, against the terms that a message can settle.
use federated_reserve.Prelude.{
  ℕ, String, Option, none, some, List, [], Bool, true, false, string_eq, ◌>>=◌,
}
use federated_reserve.Shared.Text.{Text}
use federated_reserve.Shared.Skills.{AssetAmount, NegotiateSwapMessage, SwapProposal, SwapCounter}
use federated_reserve.Agent.Executor.Events.{
  Payload, NegotiationRound, Run, TaskState, working, input_required, completed, failed, no_message,
  swap_counter, task, push, threw, close, fail_task,
}
use federated_reserve.Agent.Executor.Deps.{
  Deps, DataPart, Context, Action, accept_it, counter_it, reject_it, other, ReasonerDecision,
}
use federated_reserve.Agent.Executor.Chain.{execute_responder_leg}
use federated_reserve.Agent.Swap.Decide.{decide_on_proposal, decide_on_round}
use federated_reserve.Agent.Swap.Settle.{settle}
use federated_reserve.Prelude.{◌≡◌, ◌⊎◌, inl, inr, refl}
use federated_reserve.Agent.Executor.Events.{outcome, ChainCall}
use federated_reserve.Agent.Executor.Events.Orderly.{
  outcome-emit, outcome-push, outcome-close, outcome-fail_task, outcome-threw,
}
use federated_reserve.Agent.Executor.Events.Calls.{
  calls, calls-emit, calls-push, calls-close, calls-fail_task, calls-threw,
}
use federated_reserve.Agent.Swap.Settle.Protocol.{outcome-settle, calls-settle}
use federated_reserve.Agent.Swap.Handle.{
  answer_counter, answer_proposal, answer_decided, handle_proposal, answer_their_counter,
  handle_continuation, handle_first, find_initiator_fips, handle_message, handle_negotiate_swap,
  handle_parsed,
}

-- The terms that a message can settle, and the state that they are agreed with.
pub record Deal : Type 0 where
  pub initiator_fips : ℕ
  pub give : AssetAmount
  pub receive : AssetAmount

continuation_deal : ℕ → NegotiateSwapMessage → Option Deal
continuation_deal i (NegotiateSwapMessage.accept a) =
    some (record { initiator_fips = i; give = a.agreed_give; receive = a.agreed_receive })
continuation_deal i (NegotiateSwapMessage.counter c) =
    some (record { initiator_fips = i; give = c.give; receive = c.receive })
continuation_deal i _ = none

first_deal : NegotiateSwapMessage → Option Deal
first_deal (NegotiateSwapMessage.proposal p) =
    some (record { initiator_fips = p.initiator_fips; give = p.give; receive = p.receive })
first_deal _ = none

message_deal : Option (Option (List (Option DataPart))) → NegotiateSwapMessage → Option Deal
unfolding continuation_deal first_deal
message_deal none m = first_deal m
message_deal (some none) m = continuation_deal 0 m
message_deal (some (some history)) m = continuation_deal (find_initiator_fips history) m

-- A proposal's own terms on a new task; on a task that exists, those that the message accepts or
-- counters with, with the initiator of the first proposal of the history.
pub deal_of : Context → DataPart → Option Deal
unfolding message_deal
deal_of ctx part = part.as_swap >>= message_deal ctx.task

abbrev pub is_completed : Option TaskState → Bool
is_completed (some completed) = true
is_completed _ = false

-- The transactions of a run and the state that it leaves its task in: those of the responder's leg
-- of the deal where the task is completed, else none.
pub Settles : Deps → Option Deal → List ChainCall → Option TaskState → Type 0
Settles d deal cs o =
    ((cs ≡ []) × (is_completed o ≡ false))
    ⊎ ((x : Deal) × (deal ≡ some x)
        × (o ≡ some completed)
        × (cs ≡ (execute_responder_leg d x.initiator_fips x.give x.receive).0))

Settles-fail_task :
    (d : Deps) (deal : Option Deal) (has_task : Bool) (reason : Text)
    → Settles d deal (calls (fail_task has_task reason)) (outcome (fail_task has_task reason))
unfolding Settles
Settles-fail_task d deal has_task reason =
    rw (calls-fail_task has_task reason, outcome-fail_task has_task reason) (inl (refl, refl))

Settles-settle :
    (d : Deps) (x : Deal) (rounds : ℕ)
    → Settles d
        (some x)
        (calls (settle d x.initiator_fips x.give x.receive rounds))
        (outcome (settle d x.initiator_fips x.give x.receive rounds))
unfolding Settles
Settles-settle d x rounds =
    inr (x, refl, outcome-settle d _ _ _ rounds, calls-settle d _ _ _ rounds)

-- A report changes nothing of this.
Settles-push :
    (d : Deps) (deal : Option Deal) (x : NegotiationRound) (r : Run)
    → Settles d deal (calls r) (outcome r)
    → Settles d deal (calls (push d.telemetry x r)) (outcome (push d.telemetry x r))
Settles-push d deal x r h = rw (calls-push d.telemetry x r, outcome-push d.telemetry x r) h

Settles-close :
    (d : Deps) (deal : Option Deal) (s : TaskState) (p : Payload) (final : Bool)
    → is_completed (some s) ≡ false
    → Settles d deal (calls (close s p final)) (outcome (close s p final))
unfolding Settles
Settles-close d deal s p final h =
    rw (calls-close s p final, outcome-close s p final) (inl (refl, h))

Settles-threw : (d : Deps) (deal : Option Deal) → Settles d deal (calls threw) (outcome threw)
unfolding Settles
Settles-threw d deal = rw (calls-threw, outcome-threw) (inl (refl, refl))

Settles-answer_counter :
    (d : Deps) (deal : Option Deal) (p : SwapProposal) (c : Option SwapCounter)
    → Settles d deal (calls (answer_counter d p c)) (outcome (answer_counter d p c))
unfolding answer_counter
Settles-answer_counter d deal p none = Settles-threw d deal
Settles-answer_counter d deal p (some c) =
    Settles-push d deal _ _ (Settles-close d deal input_required (swap_counter c) false refl)

Settles-answer_proposal :
    (d : Deps) (p : SwapProposal) (decision : ReasonerDecision) (a : Action)
    → Settles d
        (first_deal (NegotiateSwapMessage.proposal p))
        (calls (answer_proposal d p decision a))
        (outcome (answer_proposal d p decision a))
unfolding answer_proposal first_deal
Settles-answer_proposal d p decision reject_it =
    Settles-push d _ _ _ (Settles-close d _ failed _ true refl)
Settles-answer_proposal d p decision accept_it = Settles-push d _ _ _ (Settles-settle d _ 1)
Settles-answer_proposal d p decision counter_it = Settles-answer_counter d _ p _
Settles-answer_proposal d p decision other = Settles-answer_counter d _ p _

Settles-answer_decided :
    (d : Deps) (p : SwapProposal) (decision : Option ReasonerDecision)
    → Settles d
        (first_deal (NegotiateSwapMessage.proposal p))
        (calls (answer_decided d p decision))
        (outcome (answer_decided d p decision))
unfolding answer_decided
Settles-answer_decided d p none = Settles-threw d _
Settles-answer_decided d p (some decision) =
    rw
      (
        calls-emit (task working no_message) (answer_proposal d p decision decision.action) refl,
        outcome-emit (task working no_message) (answer_proposal d p decision decision.action) refl,
      )
      (Settles-answer_proposal d p decision decision.action)

Settles-answer_their_counter :
    (d : Deps) (i rounds : ℕ) (c : SwapCounter) (decision : ReasonerDecision) (a : Action)
    → Settles d
        (continuation_deal i (NegotiateSwapMessage.counter c))
        (calls (answer_their_counter d i rounds c decision a))
        (outcome (answer_their_counter d i rounds c decision a))
unfolding answer_their_counter continuation_deal
Settles-answer_their_counter d i rounds c decision reject_it =
    Settles-push d _ _ _ (Settles-fail_task d _ true _)
Settles-answer_their_counter d i rounds c decision accept_it =
    Settles-push d _ _ _ (Settles-settle d _ rounds)
Settles-answer_their_counter d i rounds c decision counter_it =
    Settles-push d _ _ _ (Settles-settle d _ rounds)
Settles-answer_their_counter d i rounds c decision other =
    Settles-push d _ _ _ (Settles-settle d _ rounds)

Settles-handle_continuation :
    (d : Deps) (i rounds : ℕ) (m : NegotiateSwapMessage)
    → Settles d
        (continuation_deal i m)
        (calls (handle_continuation d i rounds m))
        (outcome (handle_continuation d i rounds m))
unfolding handle_continuation continuation_deal
Settles-handle_continuation d i rounds (NegotiateSwapMessage.reject r) =
    Settles-push d _ _ _ (Settles-fail_task d _ true _)
Settles-handle_continuation d i rounds (NegotiateSwapMessage.accept a) =
    Settles-push d _ _ _ (Settles-settle d _ rounds)
Settles-handle_continuation d i rounds (NegotiateSwapMessage.counter c) =
    Settles-push d _ _ _ (Settles-answer_their_counter d i rounds c (decide_on_round d c rounds) _)
Settles-handle_continuation d i rounds (NegotiateSwapMessage.proposal p) =
    Settles-fail_task d _ true _

Settles-handle_first :
    (d : Deps) (m : NegotiateSwapMessage)
    → Settles d (first_deal m) (calls (handle_first d m)) (outcome (handle_first d m))
unfolding handle_first handle_proposal
Settles-handle_first d (NegotiateSwapMessage.proposal p) =
    Settles-push d _ _ _ (Settles-answer_decided d p (decide_on_proposal d p))
Settles-handle_first d (NegotiateSwapMessage.counter c) = Settles-fail_task d _ false _
Settles-handle_first d (NegotiateSwapMessage.accept a) = Settles-fail_task d _ false _
Settles-handle_first d (NegotiateSwapMessage.reject r) = Settles-fail_task d _ false _

Settles-handle_message :
    (d : Deps) (t : Option (Option (List (Option DataPart)))) (m : NegotiateSwapMessage)
    → Settles d (message_deal t m) (calls (handle_message d t m)) (outcome (handle_message d t m))
unfolding handle_message message_deal
Settles-handle_message d none m = Settles-handle_first d m
Settles-handle_message d (some none) m = Settles-handle_continuation d _ _ m
Settles-handle_message d (some (some history)) m = Settles-handle_continuation d _ _ m

Settles-handle_parsed :
    (d : Deps) (t : Option (Option (List (Option DataPart)))) (error_message : String)
    (m : Option NegotiateSwapMessage)
    → Settles d
        (m >>= message_deal t)
        (calls (handle_parsed d t error_message m))
        (outcome (handle_parsed d t error_message m))
unfolding handle_parsed
Settles-handle_parsed d t error_message none = Settles-fail_task d _ _ _
Settles-handle_parsed d t error_message (some m) = Settles-handle_message d t m

-- Whatever the model decides, a run on a negotiation message either sends no transaction and does
-- not complete its task, or completes it and sends exactly the transactions of the responder's leg
-- on the terms that this message can settle.
pub handle_negotiate_swap-Settles :
    (d : Deps) (ctx : Context) (part : DataPart)
    → Settles d
        (deal_of ctx part)
        (calls (handle_negotiate_swap d ctx part))
        (outcome (handle_negotiate_swap d ctx part))
unfolding handle_negotiate_swap deal_of
handle_negotiate_swap-Settles d ctx part =
    Settles-handle_parsed d ctx.task part.error_message part.as_swap
