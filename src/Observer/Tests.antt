-- ===== src/Observer/Tests.antt =====
-- A rate that is repeated, a swap, a negotiation that is rejected, an indicator and a crowd of
-- negotiations come to an observer.
use federated_reserve.Prelude.{
  ℕ, zero, suc, ◌-◌, ◌≤◌, min, ◌⊎◌, String, none, some, List, [], ◌∷◌, ◌≡◌, ◌↔◌, refl, true,
  string_eq, nat_eq, length, select, if◌then◌else◌, ◌==◌, All, leb, arith,
}
use federated_reserve.Prelude.Int.{pos}
use federated_reserve.Prelude.Dict.{Dict, insert, insert-IsNodup, IsNodup, Entries, values}
use federated_reserve.Shared.Platform.{Platform}
use federated_reserve.Observer.Types.{
  NegotiationRoundPayload, NegotiationView, reject, proposal, settled,
}
use federated_reserve.Observer.Project.{Explorers}
use federated_reserve.Observer.Store.{ObserverStore, make_store}
use federated_reserve.Observer.Store.Negotiations.{
  trim_negotiations, negotiation_cap, negotiation_ttl_ms,
}
use federated_reserve.Observer.Store.Negotiations.Coherent.{AllCoherent}
use federated_reserve.Observer.Store.Negotiations.Trim.{
  IsFate, LeavesFresh, trim_negotiations-IsTrimmed,
}
use federated_reserve.Observer.Store.Operations.{update_mesh, shock_ttl_ms}
use federated_reserve.Observer.Store.Operations.Mesh.{SamePeers, update_mesh-IsQuiet}
use federated_reserve.Observer.Store.Snapshot.{snapshot}
use federated_reserve.Observer.Store.Snapshot.Fresh.{IsFresh, snapshot-IsFresh}
use federated_reserve.Observer.Store.Runs.{
  Operation, indicator, fed_rate, round, swap, take_snapshot, run,
}
use federated_reserve.Observer.Store.Runs.Has.{changes}
use federated_reserve.Observer.Store.Runs.Latest.{KeepsLatest, run-KeepsLatest}
use federated_reserve.Observer.Store.Runs.Judged.{AllJudged, run-AllJudged}
use federated_reserve.Observer.Store.Runs.Coherent.{run-AllCoherent}
use federated_reserve.Observer.Store.Runs.Recent.{
  Shows, swaps_of, rates_of, last_rate, last_reflection, run-Shows,
}

abbrev platform : Platform
platform = record {
  iso_string = λ _. "now";
  time_of = λ text. some (if text == "late" then 9000000 else 1000);
  locale_leb = λ _ _. true;
  number_text = λ _. "1";
}

abbrev env : Explorers
env = record { unichain = none; og_chain = none; og_storage = none }

abbrev rejection : NegotiationRoundPayload
rejection = record {
  task_id = "task";
  context_id = none;
  skill = "negotiate-bilateral-swap";
  round = 2;
  from_fips = 6;
  to_fips = some 48;
  stage = reject;
  summary = "no";
  emitted_at = "late";
}

abbrev day : List (ℕ × Operation)
day =
    (1, fed_rate (record { rate_bps = 525; effective = "today"; rationale = "" }))
    ∷ (2, fed_rate (record { rate_bps = 525; effective = "today"; rationale = "again" }))
    ∷ (
      3,
      swap (record {
        from_fips = 6;
        to_fips = 48;
        give = record { asset = "USDC"; amount = "1" };
        receive = record { asset = "CA"; amount = "2" };
        tx_hash = "0x1";
        explorer_url = none;
        emitted_at = "late";
      }),
    )
    ∷ (4, round (record rejection { stage = proposal; from_fips = 48; to_fips = some 6 }))
    ∷ (5, round rejection)
    ∷ (
      6,
      indicator (record {
        state_fips = 6;
        indicator = "unemployment";
        value = pos 700;
        timestamp = "t";
        source = "FRED";
      }),
    )
    ∷ (7, take_snapshot)
    ∷ []

run-KeepsLatest_example : KeepsLatest (run platform env day make_store)
run-KeepsLatest_example = run-KeepsLatest platform env day

run-AllJudged_example : AllJudged (run platform env day make_store)
run-AllJudged_example = run-AllJudged platform env day

run-AllCoherent_example : AllCoherent (run platform env day make_store).negotiations
run-AllCoherent_example = run-AllCoherent platform env day

run-Shows_example :
    Shows
      (swaps_of day)
      (changes 1 none (rates_of platform day))
      (last_rate none (rates_of platform day))
      (λ fips. last_reflection fips none day)
      (run platform env day make_store)
run-Shows_example = run-Shows platform env day

abbrev finished : NegotiationView
finished = record {
  task_id = "task";
  context_id = none;
  skill = "negotiate-bilateral-swap";
  participants = 6 ∷ [];
  status = settled;
  rounds = [];
  started_at = "late";
  last_at = "late";
}

abbrev key : ℕ → String
key zero = ""
key (suc n) = String.◌∷◌ "a" (key n)

abbrev crowd : ℕ → Dict String NegotiationView
crowd zero = []
crowd (suc n) = insert (key n) finished (crowd n)

crowd-IsNodup : (n : ℕ) → IsNodup (crowd n)
crowd-IsNodup zero = tt
crowd-IsNodup (suc n) = insert-IsNodup (key n) finished (crowd n) (crowd-IsNodup n)

trim_negotiations-IsTrimmed_example :
    Entries
      (IsFate platform
        (9000000 - negotiation_ttl_ms)
        (trim_negotiations platform 9000000 (crowd 35)))
      (crowd 35)
    × (min negotiation_cap (length (crowd 35))
        ≤ length (trim_negotiations platform 9000000 (crowd 35)))
    × ((length (trim_negotiations platform 9000000 (crowd 35)) ≤ negotiation_cap)
        ⊎ LeavesFresh platform
            (9000000 - negotiation_ttl_ms)
            (trim_negotiations platform 9000000 (crowd 35)))
trim_negotiations-IsTrimmed_example =
    trim_negotiations-IsTrimmed platform 9000000 (crowd 35) (crowd-IsNodup 35)

abbrev meshed : ObserverStore
meshed = record make_store {
  mesh = record { observer_pubkey = "o"; peers = "a" ∷ "b" ∷ []; refreshed_at = none };
  event_times = 5 ∷ 70000 ∷ [];
}

update_mesh-IsQuiet_example :
    ((update_mesh platform 9 "o" ("b" ∷ "a" ∷ []) meshed).next_event_id ≡ meshed.next_event_id)
    ↔ ((meshed.mesh.observer_pubkey ≡ "o") × SamePeers meshed.mesh.peers ("b" ∷ "a" ∷ []))
update_mesh-IsQuiet_example =
    update_mesh-IsQuiet platform 9 "o" ("b" ∷ "a" ∷ []) meshed (refl, (refl, tt)) (refl, (refl, tt))

snapshot-IsFresh_example :
    ((snapshot platform 70001 meshed).1.metrics.messages_per_minute
      ≡ length (select (λ t. leb (70001 - 60000) t) meshed.event_times))
    × All (IsFresh platform (70001 - shock_ttl_ms)) (snapshot platform 70001 meshed).1.shocks
    × All
        (IsFresh platform (70001 - shock_ttl_ms))
        (values (snapshot platform 70001 meshed).0.shocks)
snapshot-IsFresh_example = snapshot-IsFresh platform 70001 meshed (omega arith, (omega arith, tt))
