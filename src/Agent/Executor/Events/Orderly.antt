-- ===== src/Agent/Executor/Events/Orderly.antt =====
-- The protocol of a task: an answer is one status update, then the end, and an update is final
-- exactly where its state is terminal.
use federated_reserve.Prelude.{
  some, none, ◌≡◌, refl, List, [], ◌∷◌, Bool, true, false, if◌then◌else◌,
}
use federated_reserve.Shared.Text.{Text}
use federated_reserve.Agent.Executor.Events.{
  TaskState, working, completed, failed, canceled, Payload, Event, task, status, finished, round,
  swap_executed, chain, Run, ChainCall, emit, send, close, threw, push, fail_task, outcome_of,
  outcome, NegotiationRound,
}

abbrev pub is_terminal : TaskState → Bool
is_terminal completed = true
is_terminal failed = true
is_terminal canceled = true
is_terminal _ = false

abbrev pub same_bool : Bool → Bool → Bool
same_bool true b = b
same_bool false true = false
same_bool false false = true

abbrev pub is_working : TaskState → Bool
is_working working = true
is_working _ = false

-- One status update, which is not `working`, directly before the one `finished`, and none earlier.
pub ends : List Event → Bool
ends [] = false
ends (finished ∷ _) = false
ends (status s p final ∷ finished ∷ []) =
    if is_working s then false else same_bool final (is_terminal s)
ends (status s p final ∷ _) = false
ends (_ ∷ events) = ends events

-- A handler that returns has answered its task; one that throws has sent no status update.
pub quiet : List Event → Bool
quiet [] = true
quiet (status _ _ _ ∷ _) = false
quiet (finished ∷ _) = false
quiet (_ ∷ events) = quiet events

pub orderly : Run → Bool
unfolding ends quiet
orderly (events, true) = ends events
orderly (events, false) = quiet events

abbrev pub is_silent : Event → Bool
is_silent (status _ _ _) = false
is_silent finished = false
is_silent _ = true

pub orderly-emit : (e : Event) (r : Run) → is_silent e ≡ true → orderly (emit e r) ≡ orderly r
unfolding orderly emit
orderly-emit (task s p) (es, true) h = refl
orderly-emit (task s p) (es, false) h = refl
orderly-emit (round x) (es, true) h = refl
orderly-emit (round x) (es, false) h = refl
orderly-emit (swap_executed x) (es, true) h = refl
orderly-emit (swap_executed x) (es, false) h = refl
orderly-emit (chain x) (es, true) h = refl
orderly-emit (chain x) (es, false) h = refl
orderly-emit (status s p f) r h = cc
orderly-emit finished r h = cc

pub orderly-send : (cs : List ChainCall) (r : Run) → orderly (send cs r) ≡ orderly r
unfolding orderly send
orderly-send [] (es, true) = refl
orderly-send [] (es, false) = refl
orderly-send (c ∷ cs) (es, true) = orderly-send cs (es, true)
orderly-send (c ∷ cs) (es, false) = orderly-send cs (es, false)

pub orderly-close :
    (s : TaskState) (p : Payload) (final : Bool)
    → orderly (close s p final) ≡ (if is_working s then false else same_bool final (is_terminal s))
unfolding orderly close
orderly-close s p final = refl

pub orderly-push :
    (telemetry : Bool) (x : NegotiationRound) (r : Run) → orderly (push telemetry x r) ≡ orderly r
unfolding push
orderly-push true x r = orderly-emit (round x) r refl
orderly-push false x r = refl

pub orderly-fail_task :
    (has_task : Bool) (reason : Text) → orderly (fail_task has_task reason) ≡ true
unfolding fail_task orderly ends emit close
orderly-fail_task true reason = refl
orderly-fail_task false reason = refl

pub outcome-emit : (e : Event) (r : Run) → is_silent e ≡ true → outcome (emit e r) ≡ outcome r
unfolding outcome outcome_of emit
outcome-emit (task s p) (es, b) h = refl
outcome-emit (round x) (es, b) h = refl
outcome-emit (swap_executed x) (es, b) h = refl
outcome-emit (chain x) (es, b) h = refl
outcome-emit (status s p f) r h = cc
outcome-emit finished r h = cc

pub outcome-send : (cs : List ChainCall) (r : Run) → outcome (send cs r) ≡ outcome r
unfolding outcome outcome_of send
outcome-send [] (es, b) = refl
outcome-send (c ∷ cs) (es, b) = outcome-send cs (es, b)

pub outcome-push :
    (telemetry : Bool) (x : NegotiationRound) (r : Run) → outcome (push telemetry x r) ≡ outcome r
unfolding push
outcome-push true x r = outcome-emit (round x) r refl
outcome-push false x r = refl

pub outcome-close :
    (s : TaskState) (p : Payload) (final : Bool) → outcome (close s p final) ≡ some s
unfolding outcome outcome_of close
outcome-close s p final = refl

pub outcome-fail_task :
    (has_task : Bool) (reason : Text) → outcome (fail_task has_task reason) ≡ some failed
unfolding fail_task outcome outcome_of emit close
outcome-fail_task true reason = refl
outcome-fail_task false reason = refl

pub orderly-threw : orderly threw ≡ true
unfolding orderly quiet
orderly-threw = refl

pub outcome-threw : outcome threw ≡ none
unfolding outcome outcome_of
outcome-threw = refl
