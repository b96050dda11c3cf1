-- ===== src/Agent/Sweep/Tests.antt =====
-- Two sweeps: a hurricane in Texas is signalled, and in the next sweep a flood there.
use federated_reserve.Prelude.{
  some, List, [], ◌∷◌, ◌≡◌, ◌≢◌, refl, All, In, inl, arith, string_eq, nat_eq,
}
use federated_reserve.Prelude.Distinct.{IsDistinct}
use federated_reserve.Shared.States.{lookup_state_by_fips}
use federated_reserve.Data.Scheduler.{ShockEvent}
use federated_reserve.Agent.Sweep.{Signal, SweepDeps, sweep}
use federated_reserve.Agent.Sweep.Groups.{IsSignal, fips_of}
use federated_reserve.Agent.Sweep.Remembers.{sweep-never_repeats}
use federated_reserve.Agent.Sweep.OneEach.{sweep-IsDistinct}

abbrev hurricane : ShockEvent
hurricane = record {
  event_id = "e1";
  state_fips = 48;
  shock_kind = "natural_disaster";
  event_type = "Hurricane";
  severity = 8;
  begin_date = "d";
}

abbrev flood : ShockEvent
flood = record hurricane { event_id = "e2"; event_type = "Flood"; severity = 5 }

abbrev active : List ShockEvent
active = flood ∷ hurricane ∷ []

abbrev deps : SweepDeps
deps = record {
  now = 1000;
  peers = "pubtx" ∷ [];
  cards = λ peer. some (some "Texas State Treasurer");
  call = λ s. some (record { state = some "completed"; kind = some "joining" });
}

-- The first sweep signals the hurricane and is answered.
first_sweep : (sweep deps active [] []).reports ≡ hurricane ∷ []
unfolding sweep lookup_state_by_fips
first_sweep = refl

sweep-IsDistinct_example :
    IsDistinct (fips_of (sweep deps active [] []).signals)
    × All (IsSignal deps [] active) (sweep deps active [] []).signals
sweep-IsDistinct_example = sweep-IsDistinct deps active [] []

abbrev to_flood : Signal
to_flood = record { target = "pubtx"; event = flood }

reported : In hurricane (sweep deps active [] []).reports
unfolding sweep lookup_state_by_fips
reported = inl refl

sent :
    In to_flood
      (sweep deps active (sweep deps active [] []).cache (sweep deps active [] []).recently).signals
unfolding sweep lookup_state_by_fips
sent = inl refl

sweep-never_repeats_example : to_flood.event.event_id ≢ hurricane.event_id
sweep-never_repeats_example =
    sweep-never_repeats deps deps active active [] [] hurricane to_flood (omega arith) (omega arith)
      reported sent
