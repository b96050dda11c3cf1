-- ===== src/Agent/Executor/Aid.antt =====
-- The skill request-emergency-aid of packages/agent/src/a2a/executor.ts.
pub mod Protocol
use federated_reserve.Prelude.{
  ℕ, zero, suc, ◌+◌, ◌-◌, ◌*◌, ◌/◌, ◌≤◌, ◌<◌, ◌≡◌, ◌∙◌, ◌⊎◌, inl, inr, refl, sym, subst, String,
  Option, none, some, List, [], ◌∷◌, ◌++◌, Bool, true, false, ◌||◌, if◌then◌else◌, ltb, leb, ◌==◌,
  nat_eq, string_eq, or_else, is_some, contains, ◌>>=◌, arith, Bool-cases, Option-cases, ltb→lt,
  append-nil, length, All, find,
}
use federated_reserve.Shared.Text.{Text, lit, num, dollars, plain, slice}
use federated_reserve.Shared.Skills.{
  AidRequest, AidKind, offered, refused, AidResponse, AidSettlement,
}
use federated_reserve.Agent.Executor.Events.{
  Payload, Stage, Terms, no_terms, NegotiationRound, Event, Run, TaskState, working, input_required,
  completed, failed, canceled, no_message, text, coalition_response, bond_award, aid_response,
  shock_contribution, proposal, counter, accept, reject, coalition_join, coalition_decline,
  coalition_counter, task, status, finished, ChainCall, emit, send, push, threw, close, fail_task,
  outcome,
}
use federated_reserve.Agent.Executor.Deps.{Deps, AidDecision}
use federated_reserve.Agent.Executor.Chain.{usdc_unit, execute_aid_transfer}

abbrev skill_name : String
skill_name = "request-emergency-aid"

-- A quarter of the request, where the reserve ratio is above 1000 basis points.
pub aid_fallback : Deps → AidRequest → AidResponse
aid_fallback d env =
    let able = ltb 1000 d.reserve_ratio in
    record {
      kind = if able then offered else refused;
      responder_fips = d.fips;
      amount_usd = if able then env.amount_usd / (4 * usdc_unit) * usdc_unit else 0;
      yield_bps = if able then 600 else 0;
      rationale =
          if able
          then lit d.abbr ∷ lit " offers 25% of request at 600bps." ∷ []
          else lit d.abbr ∷ lit " declines: own reserve ratio is too thin." ∷ [];
      settlement = none;
    }

-- The model's decision as a response, before its settlement.
aid_response_of : Deps → AidRequest → Option AidDecision → AidResponse
unfolding aid_fallback
aid_response_of d env none = aid_fallback d env
aid_response_of d env (some decision) = record {
  kind = decision.kind;
  responder_fips = d.fips;
  amount_usd = decision.amount_usd;
  yield_bps = decision.yield_bps;
  rationale = decision.rationale;
  settlement = none;
}

abbrev pub ask_aid_reasoner : Deps → AidRequest → Option AidDecision
ask_aid_reasoner d env = d.reasoner >>= λ r. r.aid env

pub aid_response_to : Deps → AidRequest → AidResponse
unfolding aid_response_of
aid_response_to d env = aid_response_of d env (ask_aid_reasoner d env)

abbrev is_offered : AidKind → Bool
is_offered offered = true
is_offered refused = false

-- The transactions of a response, and the response that they leave.
pub settle_aid : Deps → AidRequest → AidResponse → List ChainCall × AidResponse
settle_aid d env response =
    if is_offered response.kind
    then if ltb 0 response.amount_usd
      then (let transfer = execute_aid_transfer d env.requester_fips response.amount_usd in
          (
            transfer.0,
            elim transfer.1 [ none ↦ response | some s ↦ record response { settlement = some s } ],
          ))
      else ([], response)
    else ([], response)

aid_hash : AidResponse → Option String
aid_hash response =
    if is_offered response.kind then (response.settlement >>= λ s. some s.tx_hash) else none

-- `${tx ? ` (tx ${tx.slice(0, 10)}…)` : ''}`
pub tx_note : Option String → Text
tx_note none = []
tx_note (some tx) = if tx == "" then [] else lit " (tx " ∷ lit (slice 10 tx) ∷ lit "…)" ∷ []

pub tx_terms : Option String → Terms
tx_terms none = no_terms
tx_terms (some tx) =
    if tx == ""
    then no_terms
    else record { give = none; receive = none; coalition_tag = none; tx_hash = some tx }

aid_summary : AidResponse → Text
unfolding tx_note aid_hash
aid_summary response =
    if is_offered response.kind
    then lit "offers $"
        ∷ dollars response.amount_usd
        ∷ lit " @ "
        ∷ num response.yield_bps
        ∷ lit "bps"
        ∷ tx_note (aid_hash response)
      ++ lit " — " ∷ response.rationale
    else lit "declines — " ∷ response.rationale

answer_aid : Deps → AidRequest → List ChainCall × AidResponse → Run
unfolding aid_summary tx_terms aid_hash
answer_aid d env (transactions, response) = send transactions (
    push d.telemetry
      (record {
        skill = skill_name;
        round = 2;
        from_fips = d.fips;
        to_fips = env.requester_fips;
        stage = if is_offered response.kind then accept else reject;
        summary = aid_summary response;
        terms = tx_terms (aid_hash response);
      })
      (close completed (aid_response response) true))

pub handle_aid_request : Deps → AidRequest → Run
unfolding answer_aid settle_aid aid_response_to
handle_aid_request d env = emit (task working no_message) (
    push d.telemetry
      (record {
        skill = skill_name;
        round = 1;
        from_fips = env.requester_fips;
        to_fips = d.fips;
        stage = proposal;
        summary =
            lit "requests $" ∷ dollars env.amount_usd ∷ lit " — " ∷ lit (slice 200 env.reason) ∷ [];
        terms = no_terms;
      })
      (answer_aid d env (settle_aid d env (aid_response_to d env))))
