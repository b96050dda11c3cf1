-- ===== src/Agent/Executor/Events/Calls.antt =====
-- The transactions of a run, each held against a predicate.
use federated_reserve.Prelude.{◌≡◌, refl, List, [], ◌∷◌, ◌++◌, Bool, true, false}
use federated_reserve.Shared.Text.{Text}
use federated_reserve.Agent.Executor.Events.{
  TaskState, Payload, Event, task, status, finished, round, swap_executed, chain, Run, ChainCall,
  emit, send, close, threw, push, fail_task, NegotiationRound,
}

-- The transactions that a run sends, in order.
pub calls_of : List Event → List ChainCall
calls_of [] = []
calls_of (chain c ∷ events) = c ∷ calls_of events
calls_of (_ ∷ events) = calls_of events

unfoldable pub calls : Run → List ChainCall
unfolding calls_of
calls (events, _) = calls_of events

-- An event that sends no transaction.
abbrev pub is_off_chain : Event → Bool
is_off_chain (chain _) = false
is_off_chain _ = true

pub calls-emit : (e : Event) (r : Run) → is_off_chain e ≡ true → calls (emit e r) ≡ calls r
unfolding calls calls_of emit
calls-emit (task s p) (es, b) h = refl
calls-emit (round x) (es, b) h = refl
calls-emit (swap_executed x) (es, b) h = refl
calls-emit (chain x) (es, b) h = cc
calls-emit (status s p f) (es, b) h = refl
calls-emit finished (es, b) h = refl

pub calls-push :
    (telemetry : Bool) (x : NegotiationRound) (r : Run) → calls (push telemetry x r) ≡ calls r
unfolding push
calls-push true x r = calls-emit (round x) r refl
calls-push false x r = refl

pub calls-send : (cs : List ChainCall) (r : Run) → calls (send cs r) ≡ cs ++ calls r
unfolding calls calls_of send
calls-send [] (es, b) = refl
calls-send (c ∷ cs) (es, b) = rw (calls-send cs (es, b))

pub calls-close : (s : TaskState) (p : Payload) (final : Bool) → calls (close s p final) ≡ []
unfolding calls calls_of close
calls-close s p final = refl

pub calls-threw : calls threw ≡ []
unfolding calls calls_of
calls-threw = refl

pub calls-fail_task : (has_task : Bool) (reason : Text) → calls (fail_task has_task reason) ≡ []
unfolding fail_task calls calls_of emit close
calls-fail_task true reason = refl
calls-fail_task false reason = refl
