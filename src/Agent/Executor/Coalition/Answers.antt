-- ===== src/Agent/Executor/Coalition/Answers.antt =====
-- What a state commits to in a coalition.
use federated_reserve.Prelude.{
  ◌*◌, ◌≤◌, ◌<◌, ◌≡◌, inl, inr, refl, sym, subst, Option, none, some, Bool, true, false, ltb,
  nat_eq, string_eq, or_else, arith, Bool-cases, ltb→lt,
}
use federated_reserve.Shared.Skills.{
  CoalitionInvite, CoalitionKind, joined, declined, counter_terms, CoalitionResponse,
}
use federated_reserve.Agent.Executor.Deps.{Deps, CoalitionDecision}
use federated_reserve.Agent.Executor.Chain.{usdc_unit}
use federated_reserve.Agent.Executor.Coalition.{
  is_counter, ask_coalition_reasoner, coalition_fallback, invite_response, coerced_fallback,
  revised_response, invite_response_of, revised_response_of,
}

is_counter-coerced_fallback :
    (d : Deps) (env : CoalitionInvite) (affinity : Bool)
    → is_counter (coerced_fallback d env affinity).kind ≡ false
unfolding coerced_fallback coalition_fallback
is_counter-coerced_fallback d env affinity = ground arith

is_counter-revised_response_of :
    (d : Deps) (env : CoalitionInvite) (affinity : Bool) (decision : Option CoalitionDecision)
    → is_counter (revised_response_of d env affinity decision).kind ≡ false
unfolding revised_response_of
is_counter-revised_response_of d env affinity none = is_counter-coerced_fallback d env affinity
is_counter-revised_response_of d env affinity (some x) = elim (Bool-cases (is_counter x.kind)) [
  | inl h ↦ simp (h, is_counter-coerced_fallback)
  | inr h ↦ simp h
]

-- In the last round a state joins or declines: it never counters, whatever the model answers.
is_counter-revised_response :
    (d : Deps) (env : CoalitionInvite) (affinity : Bool)
    → is_counter (revised_response d env affinity).kind ≡ false
unfolding revised_response
is_counter-revised_response d env affinity = is_counter-revised_response_of d env affinity _

-- What a response commits to, against the invitation: no more than it proposes, all of it for a
-- join, nothing for a refusal; a counter asks for at most half.
pub IsMeasured : CoalitionInvite → CoalitionResponse → CoalitionKind → Type 0
IsMeasured env r joined = r.contribution_usd ≡ env.proposed_contribution_usd
IsMeasured env r declined = r.contribution_usd ≡ 0
IsMeasured env r counter_terms =
    (r.contribution_usd ≡ 0)
    × (1000000 * usdc_unit < env.proposed_contribution_usd)
    × (2 * or_else r.preferred_contribution_usd env.proposed_contribution_usd
        ≤ env.proposed_contribution_usd)

coalition_fallback-IsMeasured :
    (d : Deps) (env : CoalitionInvite) (affinity : Bool)
    → IsMeasured env (coalition_fallback d env affinity) (coalition_fallback d env affinity).kind
unfolding coalition_fallback IsMeasured
coalition_fallback-IsMeasured d env true =
    elim (Bool-cases (ltb (1000000 * usdc_unit) env.proposed_contribution_usd)) [
      | inl h ↦ rw h (refl, ltb→lt _ _ h, omega arith)
      | inr h ↦ rw h refl
    ]
coalition_fallback-IsMeasured d env false = refl

-- A state whose model is absent or fails answers an invitation in measure: it commits to the sum
-- that is proposed or to nothing, and counters only a sum above a million dollars, with at most
-- half of it.
pub invite_response-IsMeasured :
    (d : Deps) (env : CoalitionInvite) (affinity : Bool)
    → ask_coalition_reasoner d env true ≡ none
    → IsMeasured env (invite_response d env affinity) (invite_response d env affinity).kind
unfolding invite_response invite_response_of
invite_response-IsMeasured d env affinity e =
    subst
      (λ x.
        IsMeasured env (invite_response_of d env affinity x)
          (invite_response_of d env affinity x).kind)
      (sym e) (coalition_fallback-IsMeasured d env affinity)
