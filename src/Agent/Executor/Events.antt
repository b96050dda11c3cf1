-- ===== src/Agent/Executor/Events.antt =====
-- What a handler of packages/agent/src/a2a/executor.ts does, in order: what it publishes on the
-- event bus of its task, what it sends to the chain, and what it reports to the observer.
pub mod Orderly
pub mod Calls
use federated_reserve.Prelude.{
  ℕ, String, Option, none, some, List, [], ◌∷◌, ◌++◌, Bool, true, false, if◌then◌else◌,
}
use federated_reserve.Prelude.Int.{ℤ}
use federated_reserve.Shared.Text.{Text, lit}
use federated_reserve.Shared.Skills.{
  AssetAmount, SwapCounter, SwapSettlement, CoalitionResponse, BondAward, AidResponse,
  ShockContribution,
}

pub data TaskState : Type 0 where
  working input_required completed failed canceled : TaskState

pub data Payload : Type 0 where
  no_message : Payload
  text : Text → Payload
  swap_counter : SwapCounter → Payload
  swap_settlement : SwapSettlement → Payload
  coalition_response : CoalitionResponse → Payload
  bond_award : BondAward → Payload
  aid_response : AidResponse → Payload
  shock_contribution : ShockContribution → Payload

pub data Stage : Type 0 where
  proposal counter accept reject settlement coalition_join coalition_decline coalition_counter :
      Stage

pub record Terms : Type 0 where
  pub give : Option AssetAmount
  pub receive : Option AssetAmount
  pub coalition_tag : Option String
  pub tx_hash : Option String

abbrev pub no_terms : Terms
no_terms = record { give = none; receive = none; coalition_tag = none; tx_hash = none }

-- One report of `pushNegotiation`.
pub record NegotiationRound : Type 0 where
  pub skill : String
  pub round : ℕ
  pub from_fips : ℕ
  pub to_fips : ℕ
  pub stage : Stage
  pub summary : Text
  pub terms : Terms

-- A transaction that the agent's wallet is told to send.
pub data ChainCall : Type 0 where
  mint_bond : String → String → ℕ → ChainCall
  transfer : String → String → ℕ → ChainCall
  swap : String → String → ℤ → ChainCall

pub record SwapReport : Type 0 where
  pub from_fips : ℕ
  pub to_fips : ℕ
  pub give : AssetAmount
  pub receive : AssetAmount
  pub tx_hash : String

pub data Event : Type 0 where
  task : TaskState → Payload → Event
  status : TaskState → Payload → Bool → Event
  finished : Event
  round : NegotiationRound → Event
  swap_executed : SwapReport → Event
  chain : ChainCall → Event

-- The events of a handler, and whether it returned (`true`) or threw.
abbrev pub Run : Type 0
Run = List Event × Bool

pub emit : Event → Run → Run
emit e (events, returned) = (e ∷ events, returned)

abbrev pub chain_events : List ChainCall → List Event
chain_events [] = []
chain_events (c ∷ cs) = chain c ∷ chain_events cs

pub send : List ChainCall → Run → Run
send calls (events, returned) = (chain_events calls ++ events, returned)

abbrev pub threw : Run
threw = ([], false)

-- The last status update of a handler, and the end of its answer.
pub close : TaskState → Payload → Bool → Run
close s p final = (status s p final ∷ finished ∷ [], true)

-- `pushNegotiation`: a report, where there is an observer to report to.
pub push : Bool → NegotiationRound → Run → Run
unfolding emit
push telemetry r run = if telemetry then emit (round r) run else run

abbrev pub task_failed : Text → Payload
task_failed reason = text (lit "task failed: " ∷ reason)

-- `failTask`: a message without a task gets its task first.
pub fail_task : Bool → Text → Run
unfolding emit close
fail_task has_task reason =
    let failure = close failed (task_failed reason) true in
    if has_task then failure else emit (task failed (task_failed reason)) failure

-- The state that the last status update of a run leaves its task in.
pub outcome_of : List Event → Option TaskState
outcome_of [] = none
outcome_of (status s p final ∷ events) = elim (outcome_of events) [
  | none ↦ some s
  | some t ↦ some t
]
outcome_of (_ ∷ events) = outcome_of events

pub outcome : Run → Option TaskState
unfolding outcome_of
outcome (events, _) = outcome_of events
