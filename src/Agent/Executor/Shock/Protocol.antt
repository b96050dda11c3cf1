-- ===== src/Agent/Executor/Shock/Protocol.antt =====
-- The status updates of handleShockSignal.
use federated_reserve.Prelude.{◌≡◌, ◌∙◌, refl, Option, none, some, true, nat_eq, string_eq}
use federated_reserve.Agent.Executor.Events.{working, no_message, task}
use federated_reserve.Agent.Executor.Events.Orderly.{
  orderly, orderly-emit, orderly-push, orderly-close, orderly-threw,
}
use federated_reserve.Shared.Skills.{ShockSignal, ShockContribution}
use federated_reserve.Agent.Executor.Deps.{Deps}
use federated_reserve.Agent.Executor.Shock.{answer_shock, handle_shock_signal}

orderly-answer_shock :
    (d : Deps) (env : ShockSignal) (r : Option ShockContribution)
    → orderly (answer_shock d env r) ≡ true
unfolding answer_shock
orderly-answer_shock d env none = orderly-threw
orderly-answer_shock d env (some r) = simp (orderly-push, orderly-close)

pub orderly-handle_shock_signal :
    (d : Deps) (env : ShockSignal) → orderly (handle_shock_signal d env) ≡ true
unfolding handle_shock_signal
orderly-handle_shock_signal d env =
    orderly-emit (task working no_message) _ refl
    ∙ orderly-push d.telemetry _ _
    ∙ orderly-answer_shock d env _
