-- ===== src/Agent/Swap/Settle.antt =====
-- `makeSettlement` of packages/agent/src/a2a/executor.ts, and the reports of a negotiation.
pub mod Protocol
use federated_reserve.Prelude.{
  ℕ, ◌-◌, String, Option, none, some, List, [], ◌∷◌, ◌++◌, Bool, true, false, if◌then◌else◌, leb,
  ◌==◌, string_eq, length, or_else, is_some, ◌>>=◌,
}
use federated_reserve.Prelude.Int.{scale}
use federated_reserve.Shared.Text.{Text, lit, plain, slice}
use federated_reserve.Shared.BigInt.{AmountText, given, of_int, big_int}
use federated_reserve.Shared.Skills.{
  AssetAmount, NegotiateSwapMessage, SwapProposal, SwapCounter, SwapTxLeg, SwapSettlement,
}
use federated_reserve.Agent.Executor.Events.{
  Payload, Stage, Terms, no_terms, NegotiationRound, Event, Run, TaskState, working, input_required,
  completed, failed, no_message, text, swap_counter, swap_settlement, proposal, counter, accept,
  reject, settlement, task, status, swap_executed, emit, send, push, threw, close, fail_task,
}
use federated_reserve.Agent.Executor.Deps.{
  Deps, DataPart, Context, Action, accept_it, counter_it, reject_it, other, ReasonerDecision,
  SwapQuestion,
}
use federated_reserve.Agent.Executor.Chain.{execute_responder_leg}

abbrev pub skill_name : String
skill_name = "negotiate-bilateral-swap"

abbrev pub settle_summary : Option SwapTxLeg → Text
settle_summary none = plain "settlement complete (off-chain)"
settle_summary (some leg) =
    lit "settled on Unichain (tx " ∷ lit (slice 10 leg.tx_hash) ∷ lit "…)" ∷ []

abbrev pub leg_hash : Option SwapTxLeg → Option String
leg_hash leg = leg >>= λ l. some l.tx_hash

-- The report of a swap, where its leg has a transaction.
report_swap : Deps → ℕ → AssetAmount → AssetAmount → Option SwapTxLeg → Run → Run
report_swap d initiator_fips give receive none run = run
report_swap d initiator_fips give receive (some leg) run =
    if leg.tx_hash == ""
    then run
    else if d.telemetry
    then emit
        (swap_executed (record {
          from_fips = initiator_fips;
          to_fips = d.fips;
          give = give;
          receive = receive;
          tx_hash = leg.tx_hash;
        }))
        run
    else run

-- `makeSettlement`, and the update of the task that follows it everywhere.
pub settle : Deps → ℕ → AssetAmount → AssetAmount → ℕ → Run
unfolding report_swap
settle d initiator_fips give receive rounds =
    let leg = execute_responder_leg d initiator_fips give receive in
    send leg.0 (
      push d.telemetry
        (record {
          skill = skill_name;
          round = rounds;
          from_fips = d.fips;
          to_fips = initiator_fips;
          stage = settlement;
          summary = settle_summary leg.1;
          terms = record {
            give = some give;
            receive = some receive;
            coalition_tag = none;
            tx_hash = leg_hash leg.1;
          };
        })
        (report_swap d initiator_fips give receive leg.1 (
          close completed
            (swap_settlement (record {
              initiator_fips = initiator_fips;
              responder_fips = d.fips;
              agreed_give = give;
              agreed_receive = receive;
              rounds = rounds;
              initiator_leg = none;
              responder_leg = leg.1;
              tx_hash = leg_hash leg.1;
            }))
            true)))

abbrev pub on_terms : AssetAmount → AssetAmount → Terms
on_terms give receive = record {
  give = some give;
  receive = some receive;
  coalition_tag = none;
  tx_hash = none;
}

-- One report of the negotiation with an initiator, from it or to it.
abbrev pub from_them : Deps → ℕ → ℕ → Stage → Text → Terms → NegotiationRound
from_them d initiator_fips rounds stage summary terms = record {
  skill = skill_name;
  round = rounds;
  from_fips = initiator_fips;
  to_fips = d.fips;
  stage = stage;
  summary = summary;
  terms = terms;
}

abbrev pub to_them : Deps → ℕ → ℕ → Stage → Text → Terms → NegotiationRound
to_them d initiator_fips rounds stage summary terms = record {
  skill = skill_name;
  round = rounds;
  from_fips = d.fips;
  to_fips = initiator_fips;
  stage = stage;
  summary = summary;
  terms = terms;
}
