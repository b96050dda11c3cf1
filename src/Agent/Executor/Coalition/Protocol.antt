-- ===== src/Agent/Executor/Coalition/Protocol.antt =====
-- The status updates of the coalition handlers.
use federated_reserve.Prelude.{
  ◌≡◌, ◌∙◌, refl, Option, none, some, Bool, true, false, nat_eq, string_eq,
}
use federated_reserve.Shared.Skills.{
  CoalitionInvite, CoalitionKind, joined, declined, counter_terms, CoalitionResponse,
}
use federated_reserve.Agent.Executor.Events.{working, no_message, task}
use federated_reserve.Agent.Executor.Events.Orderly.{
  orderly, orderly-emit, orderly-push, orderly-close, orderly-fail_task, orderly-threw,
}
use federated_reserve.Agent.Executor.Deps.{Deps}
use federated_reserve.Agent.Executor.Coalition.{
  answer_invite, answer_by_affinity, handle_coalition_invite, revised_by_affinity,
  handle_coalition_revised_invite,
}

orderly-answer_invite :
    (d : Deps) (env : CoalitionInvite) (r : CoalitionResponse) (k : CoalitionKind)
    → orderly (answer_invite d env r k) ≡ true
unfolding answer_invite
orderly-answer_invite d env r counter_terms = simp (orderly-push, orderly-close)
orderly-answer_invite d env r joined = simp (orderly-push, orderly-close)
orderly-answer_invite d env r declined = simp (orderly-push, orderly-close)

orderly-answer_by_affinity :
    (d : Deps) (env : CoalitionInvite) (affinity : Option Bool)
    → orderly (answer_by_affinity d env affinity) ≡ true
unfolding answer_by_affinity
orderly-answer_by_affinity d env none = orderly-threw
orderly-answer_by_affinity d env (some a) = orderly-answer_invite d env _ _

pub orderly-handle_coalition_invite :
    (d : Deps) (env : CoalitionInvite) → orderly (handle_coalition_invite d env) ≡ true
unfolding handle_coalition_invite
orderly-handle_coalition_invite d env =
    orderly-emit (task working no_message) _ refl
    ∙ orderly-push d.telemetry _ _
    ∙ orderly-answer_by_affinity d env _

orderly-revised_by_affinity :
    (d : Deps) (env : CoalitionInvite) (affinity : Option Bool)
    → orderly (revised_by_affinity d env affinity) ≡ true
unfolding revised_by_affinity
orderly-revised_by_affinity d env none = orderly-threw
orderly-revised_by_affinity d env (some a) = simp (orderly-push, orderly-close)

pub orderly-handle_coalition_revised_invite :
    (d : Deps) (has_task : Bool) (env : CoalitionInvite)
    → orderly (handle_coalition_revised_invite d has_task env) ≡ true
unfolding handle_coalition_revised_invite
orderly-handle_coalition_revised_invite d true env =
    orderly-push d.telemetry _ _ ∙ orderly-revised_by_affinity d env _
orderly-handle_coalition_revised_invite d false env = orderly-fail_task false _
