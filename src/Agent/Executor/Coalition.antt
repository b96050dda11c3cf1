-- ===== src/Agent/Executor/Coalition.antt =====
-- The skill participate-in-coalition of packages/agent/src/a2a/executor.ts.
pub mod Answers
pub mod Protocol
use federated_reserve.Prelude.{
  ℕ, zero, suc, ◌+◌, ◌-◌, ◌*◌, ◌/◌, ◌≤◌, ◌<◌, ◌≡◌, ◌∙◌, ◌⊎◌, inl, inr, refl, sym, subst, String,
  Option, none, some, List, [], ◌∷◌, ◌++◌, Bool, true, false, ◌||◌, if◌then◌else◌, ltb, leb, ◌==◌,
  nat_eq, string_eq, or_else, is_some, contains, ◌>>=◌, arith, Bool-cases, Option-cases, ltb→lt,
  append-nil, length, All, find,
}
use federated_reserve.Shared.Text.{Text, lit, num, dollars, plain, slice}
use federated_reserve.Shared.Personas.{has_coalition_affinity}
use federated_reserve.Shared.Skills.{
  CoalitionInvite, CoalitionKind, joined, declined, counter_terms, CoalitionResponse,
}
use federated_reserve.Agent.Executor.Events.{
  Payload, Stage, Terms, no_terms, NegotiationRound, Event, Run, TaskState, working, input_required,
  completed, failed, canceled, no_message, text, coalition_response, bond_award, aid_response,
  shock_contribution, proposal, counter, accept, reject, coalition_join, coalition_decline,
  coalition_counter, task, status, finished, emit, send, push, threw, close, fail_task, outcome,
}
use federated_reserve.Agent.Executor.Deps.{Deps, CoalitionQuestion, CoalitionDecision, Context}
use federated_reserve.Agent.Executor.Chain.{usdc_unit}

abbrev skill_name : String
skill_name = "participate-in-coalition"

-- `${days ? ` over ${days}d` : ''}`
over_days : Option ℕ → Text
over_days none = []
over_days (some days) = if days == 0 then [] else lit " over " ∷ num days ∷ lit "d" ∷ []

abbrev pub is_counter : CoalitionKind → Bool
is_counter counter_terms = true
is_counter _ = false

-- The model's decision; where it may not counter, a counter becomes a refusal.
demote : Deps → Bool → CoalitionDecision → CoalitionDecision
demote d can_counter decision =
    if can_counter
    then decision
    else if is_counter decision.kind
    then record {
      kind = declined;
      contribution_usd = some 0;
      preferred_contribution_usd = none;
      preferred_duration_days = none;
      rationale = lit d.abbr ∷ lit " declines after revised round (counters not permitted)." ∷ [];
    }
    else decision

unfoldable pub ask_coalition_reasoner : Deps → CoalitionInvite → Bool → Option CoalitionDecision
unfolding demote
ask_coalition_reasoner d env can_counter =
    let question : CoalitionQuestion = record {
      coalition_tag = env.coalition_tag;
      topic = env.topic;
      proposed_contribution_usd = env.proposed_contribution_usd;
      duration_days = env.duration_days;
      can_counter = can_counter;
    } in
    d.reasoner >>= λ r. r.coalition question >>= λ decision. some (demote d can_counter decision)

coalition_fallback : Deps → CoalitionInvite → Bool → CoalitionResponse
coalition_fallback d env affinity =
    if affinity
    then if ltb (1000000 * usdc_unit) env.proposed_contribution_usd
      then record {
        kind = counter_terms;
        responder_fips = d.fips;
        contribution_usd = 0;
        preferred_contribution_usd =
            some (env.proposed_contribution_usd / (2 * usdc_unit) * usdc_unit);
        preferred_duration_days = env.duration_days;
        rationale =
            lit d.abbr
            ∷ lit " aligned with "
            ∷ lit env.coalition_tag
            ∷ lit " but proposes 50% reduced contribution."
            ∷ [];
      }
      else record {
        kind = joined;
        responder_fips = d.fips;
        contribution_usd = env.proposed_contribution_usd;
        preferred_contribution_usd = none;
        preferred_duration_days = none;
        rationale =
            lit d.abbr
            ∷ lit " joins on natural affinity with "
            ∷ lit env.coalition_tag
            ∷ lit "."
            ∷ [];
      }
    else record {
      kind = declined;
      responder_fips = d.fips;
      contribution_usd = 0;
      preferred_contribution_usd = none;
      preferred_duration_days = none;
      rationale =
          lit d.abbr ∷ lit " declines: no affinity with " ∷ lit env.coalition_tag ∷ lit "." ∷ [];
    }

-- The answer to an invitation, from the model's decision.
invite_response_of : Deps → CoalitionInvite → Bool → Option CoalitionDecision → CoalitionResponse
unfolding coalition_fallback
invite_response_of d env affinity none = coalition_fallback d env affinity
invite_response_of d env affinity (some decision) = record {
  kind = decision.kind;
  responder_fips = d.fips;
  contribution_usd = or_else decision.contribution_usd 0;
  preferred_contribution_usd =
      if is_counter decision.kind then decision.preferred_contribution_usd else none;
  preferred_duration_days =
      if is_counter decision.kind then decision.preferred_duration_days else none;
  rationale = decision.rationale;
}

pub invite_response : Deps → CoalitionInvite → Bool → CoalitionResponse
unfolding ask_coalition_reasoner invite_response_of
invite_response d env affinity =
    invite_response_of d env affinity (ask_coalition_reasoner d env true)

-- The last round: a counter of the fallback is coerced to a join.
coerced_fallback : Deps → CoalitionInvite → Bool → CoalitionResponse
unfolding coalition_fallback
coerced_fallback d env affinity =
    let response = coalition_fallback d env affinity in
    if is_counter response.kind
    then record response {
      kind = if affinity then joined else declined;
      contribution_usd = if affinity then env.proposed_contribution_usd else 0;
    }
    else response

-- The answer to a revised invitation, from the model's decision.
revised_response_of : Deps → CoalitionInvite → Bool → Option CoalitionDecision → CoalitionResponse
unfolding coerced_fallback
revised_response_of d env affinity none = coerced_fallback d env affinity
revised_response_of d env affinity (some decision) =
    if is_counter decision.kind then coerced_fallback d env affinity else record {
      kind = decision.kind;
      responder_fips = d.fips;
      contribution_usd = or_else decision.contribution_usd 0;
      preferred_contribution_usd = none;
      preferred_duration_days = none;
      rationale = decision.rationale;
    }

pub revised_response : Deps → CoalitionInvite → Bool → CoalitionResponse
unfolding ask_coalition_reasoner revised_response_of
revised_response d env affinity =
    revised_response_of d env affinity (ask_coalition_reasoner d env false)

abbrev of_coalition : String → Terms
of_coalition tag = record { give = none; receive = none; coalition_tag = some tag; tx_hash = none }

-- A report to the initiator, and one from it.
to_them : Deps → CoalitionInvite → ℕ → Stage → Text → NegotiationRound
to_them d env rounds stage summary = record {
  skill = skill_name;
  round = rounds;
  from_fips = d.fips;
  to_fips = env.initiator_fips;
  stage = stage;
  summary = summary;
  terms = of_coalition env.coalition_tag;
}

from_them : Deps → CoalitionInvite → ℕ → Stage → Text → NegotiationRound
from_them d env rounds stage summary = record {
  skill = skill_name;
  round = rounds;
  from_fips = env.initiator_fips;
  to_fips = d.fips;
  stage = stage;
  summary = summary;
  terms = of_coalition env.coalition_tag;
}

abbrev join_stage : CoalitionKind → Stage
join_stage joined = coalition_join
join_stage _ = coalition_decline

join_summary : String → CoalitionResponse → CoalitionKind → Text
join_summary prefix response joined =
    lit prefix
    ∷ lit "joins for $"
    ∷ dollars response.contribution_usd
    ∷ lit " — "
    ∷ response.rationale
join_summary prefix response _ = lit prefix ∷ lit "declines — " ∷ response.rationale

counter_summary : CoalitionResponse → Text
unfolding over_days
counter_summary response =
    lit "prefers $"
      ∷ dollars (or_else response.preferred_contribution_usd 0)
      ∷ over_days response.preferred_duration_days
    ++ lit " — " ∷ response.rationale

-- The end of the answer to an invitation, by the kind of the response.
answer_invite : Deps → CoalitionInvite → CoalitionResponse → CoalitionKind → Run
unfolding to_them counter_summary join_summary
answer_invite d env response counter_terms =
    push d.telemetry (to_them d env 2 coalition_counter (counter_summary response))
      (close input_required (coalition_response response) false)
answer_invite d env response kind =
    push d.telemetry (to_them d env 2 (join_stage kind) (join_summary "" response kind))
      (close completed (coalition_response response) true)

-- A state without a persona throws.
answer_by_affinity : Deps → CoalitionInvite → Option Bool → Run
unfolding answer_invite invite_response
answer_by_affinity d env none = threw
answer_by_affinity d env (some affinity) =
    let response = invite_response d env affinity in answer_invite d env response response.kind

invite_summary : CoalitionInvite → Text
unfolding over_days
invite_summary env =
    lit env.coalition_tag
    ∷ lit " — \""
    ∷ lit env.topic
    ∷ lit "\" — ask $"
    ∷ dollars env.proposed_contribution_usd
    ∷ over_days env.duration_days

pub handle_coalition_invite : Deps → CoalitionInvite → Run
unfolding answer_by_affinity invite_summary from_them
handle_coalition_invite d env = emit (task working no_message) (
    push d.telemetry (from_them d env 1 proposal (invite_summary env))
      (answer_by_affinity d env (has_coalition_affinity d.abbr env.coalition_tag)))

revised_by_affinity : Deps → CoalitionInvite → Option Bool → Run
unfolding revised_response to_them join_summary
revised_by_affinity d env none = threw
revised_by_affinity d env (some affinity) =
    let response = revised_response d env affinity in
    push d.telemetry
      (to_them d env 4 (join_stage response.kind) (join_summary "final: " response response.kind))
      (close completed (coalition_response response) true)

pub handle_coalition_revised_invite : Deps → Bool → CoalitionInvite → Run
unfolding revised_by_affinity over_days from_them
handle_coalition_revised_invite d has_task env =
    let answer =
      push d.telemetry
        (from_them d env 3 counter
          (lit "revised: $" ∷ dollars env.proposed_contribution_usd ∷ over_days env.duration_days))
        (revised_by_affinity d env (has_coalition_affinity d.abbr env.coalition_tag)) in
    if has_task
    then answer
    else fail_task has_task (plain "revised_invite requires existing task — initial invite missing")
