-- ===== src/Agent/Executor/Aid/Protocol.antt =====
-- What an answer to a request for aid spends and promises.
use federated_reserve.Prelude.{
  ◌*◌, ◌≤◌, ◌<◌, ◌≡◌, ◌∙◌, ◌⊎◌, inl, inr, refl, sym, subst, none, some, List, [], true, false, ltb,
  nat_eq, string_eq, arith, Bool-cases, ltb→lt, append-nil,
}
use federated_reserve.Agent.Executor.Events.{
  working, completed, no_message, task, ChainCall, outcome,
}
use federated_reserve.Agent.Executor.Events.Orderly.{
  orderly, orderly-emit, orderly-send, orderly-push, orderly-close, outcome-emit, outcome-send,
  outcome-push, outcome-close,
}
use federated_reserve.Agent.Executor.Events.Calls.{
  calls, calls-emit, calls-push, calls-send, calls-close,
}
use federated_reserve.Shared.Skills.{AidRequest, AidKind, offered, refused, AidResponse}
use federated_reserve.Agent.Executor.Deps.{Deps}
use federated_reserve.Agent.Executor.Chain.{execute_aid_transfer}
use federated_reserve.Agent.Executor.Aid.{
  aid_fallback, ask_aid_reasoner, aid_response_of, aid_response_to, is_offered, settle_aid,
  answer_aid, handle_aid_request,
}

orderly-answer_aid :
    (d : Deps) (env : AidRequest) (s : List ChainCall × AidResponse)
    → orderly (answer_aid d env s) ≡ true
unfolding answer_aid
orderly-answer_aid d env (cs, r) = simp (orderly-send, orderly-push, orderly-close)

pub orderly-handle_aid_request :
    (d : Deps) (env : AidRequest) → orderly (handle_aid_request d env) ≡ true
unfolding handle_aid_request
orderly-handle_aid_request d env =
    orderly-emit (task working no_message) _ refl
    ∙ orderly-push d.telemetry _ _
    ∙ orderly-answer_aid d env _

calls-answer_aid :
    (d : Deps) (env : AidRequest) (s : List ChainCall × AidResponse)
    → calls (answer_aid d env s) ≡ s.0
unfolding answer_aid
calls-answer_aid d env (cs, r) = simp (calls-send, calls-push, calls-close, append-nil)

calls-handle_aid_request :
    (d : Deps) (env : AidRequest)
    → calls (handle_aid_request d env) ≡ (settle_aid d env (aid_response_to d env)).0
unfolding handle_aid_request
calls-handle_aid_request d env =
    calls-emit (task working no_message) _ refl
    ∙ calls-push d.telemetry _ _
    ∙ calls-answer_aid d env _

outcome-answer_aid :
    (d : Deps) (env : AidRequest) (s : List ChainCall × AidResponse)
    → outcome (answer_aid d env s) ≡ some completed
unfolding answer_aid
outcome-answer_aid d env (cs, r) = simp (outcome-send, outcome-push, outcome-close)

-- Whatever the model and the chain answer, a request for aid completes its task.
pub outcome-handle_aid_request :
    (d : Deps) (env : AidRequest) → outcome (handle_aid_request d env) ≡ some completed
unfolding handle_aid_request
outcome-handle_aid_request d env =
    outcome-emit (task working no_message) _ refl
    ∙ outcome-push d.telemetry _ _
    ∙ outcome-answer_aid d env _

-- The transactions of a response: none where it refuses, else those of the transfer of its sum.
pub SpendsOffer : Deps → AidRequest → AidResponse → List ChainCall → Type 0
SpendsOffer d env r cs =
    ((cs ≡ []) × ((is_offered r.kind ≡ false) ⊎ (r.amount_usd ≡ 0)))
    ⊎ ((is_offered r.kind ≡ true)
        × (0 < r.amount_usd)
        × (cs ≡ (execute_aid_transfer d env.requester_fips r.amount_usd).0))

settle_aid-SpendsOffer :
    (d : Deps) (env : AidRequest) (r : AidResponse) → SpendsOffer d env r (settle_aid d env r).0
unfolding settle_aid SpendsOffer
settle_aid-SpendsOffer d env r = elim (Bool-cases (is_offered r.kind)) [
  | inr h ↦ simp h (inl (refl, inl refl))
  | inl h ↦ elim (Bool-cases (ltb 0 r.amount_usd)) [
    | inl k ↦ inr (h, ltb→lt _ _ k, simp (h, k))
    | inr k ↦ inl (simp (h, k), inr (ground (arith, k)))
  ]
]

-- A request for aid sends no transaction where the answer is a refusal or offers nothing, and
-- otherwise exactly those of the transfer of the sum that the answer names.
pub handle_aid_request-SpendsOffer :
    (d : Deps) (env : AidRequest)
    → SpendsOffer d env (aid_response_to d env) (calls (handle_aid_request d env))
handle_aid_request-SpendsOffer d env =
    subst (SpendsOffer d env (aid_response_to d env)) (sym (calls-handle_aid_request d env))
      (settle_aid-SpendsOffer d env (aid_response_to d env))

-- A prudent response, by its kind: an offer of at most a quarter of the request on a reserve ratio
-- above a tenth, or a refusal on a thinner one that promises nothing.
pub IsPrudent : Deps → AidRequest → AidResponse → AidKind → Type 0
IsPrudent d env r offered = (1000 < d.reserve_ratio) × (4 * r.amount_usd ≤ env.amount_usd)
IsPrudent d env r refused = (d.reserve_ratio ≤ 1000) × (r.amount_usd ≡ 0)

aid_fallback-IsPrudent :
    (d : Deps) (env : AidRequest) → IsPrudent d env (aid_fallback d env) (aid_fallback d env).kind
unfolding aid_fallback IsPrudent
aid_fallback-IsPrudent d env = elim (Bool-cases (ltb 1000 d.reserve_ratio)) [
  | inl h ↦ rw h (ltb→lt _ _ h, omega arith)
  | inr h ↦ rw h (ground (arith, h), refl)
]

-- With no model, or one that fails, the answer to a request for aid is prudent: an offer needs a
-- reserve ratio above a tenth and is at most a quarter of the request, a refusal promises nothing.
pub aid_response_to-IsPrudent :
    (d : Deps) (env : AidRequest)
    → ask_aid_reasoner d env ≡ none
    → IsPrudent d env (aid_response_to d env) (aid_response_to d env).kind
unfolding aid_response_to aid_response_of
aid_response_to-IsPrudent d env e =
    subst (λ x. IsPrudent d env (aid_response_of d env x) (aid_response_of d env x).kind) (sym e)
      (aid_fallback-IsPrudent d env)
