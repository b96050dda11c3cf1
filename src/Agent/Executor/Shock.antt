-- ===== src/Agent/Executor/Shock.antt =====
-- The skill coordinate-shock-response of packages/agent/src/a2a/executor.ts.
pub mod Protocol
use federated_reserve.Prelude.{
  ℕ, zero, suc, ◌+◌, ◌-◌, ◌*◌, ◌/◌, ◌≤◌, ◌<◌, ◌≡◌, ◌∙◌, ◌⊎◌, inl, inr, refl, sym, subst, String,
  Option, none, some, List, [], ◌∷◌, ◌++◌, Bool, true, false, ◌||◌, if◌then◌else◌, ltb, leb, ◌==◌,
  nat_eq, string_eq, or_else, is_some, contains, ◌>>=◌, arith, Bool-cases, Option-cases, ltb→lt,
  append-nil, length, All, find,
}
use federated_reserve.Shared.Text.{Text, lit, num, dollars, plain, slice}
use federated_reserve.Shared.Personas.{StatePersona, get_persona}
use federated_reserve.Shared.Skills.{
  ShockSignal, ShockKind, natural_disaster, market_shock, policy_shock, ShockContributionKind,
  joining, abstaining, ShockContribution,
}
use federated_reserve.Agent.Executor.Events.{
  Payload, Stage, Terms, no_terms, NegotiationRound, Event, Run, TaskState, working, input_required,
  completed, failed, canceled, no_message, text, coalition_response, bond_award, aid_response,
  shock_contribution, proposal, counter, accept, reject, coalition_join, coalition_decline,
  coalition_counter, task, status, finished, emit, send, push, threw, close, fail_task, outcome,
}
use federated_reserve.Agent.Executor.Deps.{Deps, ShockDecision}
use federated_reserve.Agent.Executor.Chain.{usdc_unit}

abbrev skill_name : String
skill_name = "coordinate-shock-response"

abbrev shock_kind_name : ShockKind → String
shock_kind_name natural_disaster = "natural_disaster"
shock_kind_name market_shock = "market_shock"
shock_kind_name policy_shock = "policy_shock"

-- The answer without the model, of a state that has a persona.
pub shock_fallback : Deps → StatePersona → ShockSignal → Bool → ShockContribution
shock_fallback d persona env affected =
    let in_pool =
      affected
      || (contains "gulf-disaster-pool" persona.coalitions
          || contains "climate-exposed" persona.coalitions) in
    record {
      kind = if in_pool then joining else abstaining;
      responder_fips = d.fips;
      commitment_usd = if in_pool then env.severity * (100000 * usdc_unit) else 0;
      rationale =
          if in_pool
          then lit d.abbr
            ∷ lit " joins "
            ∷ lit (shock_kind_name env.shock_kind)
            ∷ lit " response ("
            ∷ lit (if affected then "directly affected" else "pool affinity")
            ∷ lit ")."
            ∷ []
          else lit d.abbr ∷ lit " abstains: no direct exposure or affinity." ∷ [];
    }

-- `none` is the error on a state without a persona, which the prompt needs as well.
pub shock_response_to : Deps → ShockSignal → Option ShockContribution
unfolding shock_fallback
shock_response_to d env = get_persona d.abbr >>= λ persona.
    some (elim (d.reasoner >>= λ r. r.shock env) [
      | none ↦ shock_fallback d persona env (contains d.fips env.affected_fips)
      | some decision ↦ record {
        kind = decision.kind;
        responder_fips = d.fips;
        commitment_usd = decision.commitment_usd;
        rationale = decision.rationale;
      }
    ])

abbrev contribution_stage : ShockContributionKind → Stage
contribution_stage joining = accept
contribution_stage abstaining = reject

contribution_summary : ShockContribution → ShockContributionKind → Text
contribution_summary response joining =
    lit "commits $" ∷ dollars response.commitment_usd ∷ lit " — " ∷ response.rationale
contribution_summary response abstaining = lit "abstains — " ∷ response.rationale

answer_shock : Deps → ShockSignal → Option ShockContribution → Run
unfolding contribution_summary
answer_shock d env none = threw
answer_shock d env (some response) =
    push d.telemetry
      (record {
        skill = skill_name;
        round = 2;
        from_fips = d.fips;
        to_fips = env.initiator_fips;
        stage = contribution_stage response.kind;
        summary = contribution_summary response response.kind;
        terms = no_terms;
      })
      (close completed (shock_contribution response) true)

pub handle_shock_signal : Deps → ShockSignal → Run
unfolding answer_shock shock_response_to
handle_shock_signal d env = emit (task working no_message) (
    push d.telemetry
      (record {
        skill = skill_name;
        round = 1;
        from_fips = env.initiator_fips;
        to_fips = d.fips;
        stage = proposal;
        summary =
            lit (shock_kind_name env.shock_kind)
            ∷ lit " severity "
            ∷ num env.severity
            ∷ lit "/10 — "
            ∷ lit (slice 200 env.proposed_action)
            ∷ [];
        terms = no_terms;
      })
      (answer_shock d env (shock_response_to d env)))
