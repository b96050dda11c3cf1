-- ===== src/Data/Tests.antt =====
-- Three calls at once, the timer of the second of which fires late; a refresh in which FRED fails
-- and BLS answers for California; and two workers on three items.
use federated_reserve.Prelude.{
  ◌+◌, ℕ, some, List, [], ◌∷◌, ◌≡◌, refl, none, is_some, true, false, nat_eq, string_eq,
}
use federated_reserve.Prelude.Int.{pos}
use federated_reserve.Prelude.Dict.{lookup}
use federated_reserve.Shared.Platform.{Platform}
use federated_reserve.Shared.States.{lookup_state_by_fips}
use federated_reserve.Data.Scheduler.{
  Observation, Answers, Scheduler, skipped, fetched, failed, brought, gather, set_many,
  refresh_once,
}
use federated_reserve.Data.Scheduler.Sources.{
  or_instead, said, observed, AreProper, refresh_once-serves,
}
use federated_reserve.Data.Workers.{start, run_turns, turn, get_elem?, ready_workers}
use federated_reserve.Data.Workers.Whole.{AreLive, run_turns-fills}
use federated_reserve.Data.RateLimit.{Call, acquire_all, IsPaced, acquire_all-IsPaced}

abbrev three_calls : List Call
three_calls =
    record { asked = 10; delay = 0; late = 0 }
    ∷ record { asked = 10; delay = 0; late = 90 }
    ∷ record { asked = 10; delay = 0; late = 0 }
    ∷ []

acquire_all-IsPaced_example : IsPaced 100 0 three_calls (acquire_all 100 0 0 three_calls)
acquire_all-IsPaced_example = acquire_all-IsPaced 100 0 0 three_calls

-- The last two releases are 10 milliseconds apart although the interval is 100.
three_releases : acquire_all 100 0 0 three_calls ≡ 10 ∷ 200 ∷ 210 ∷ []
unfolding acquire_all
three_releases = refl

abbrev platform : Platform
platform = record {
  iso_string = λ _. "now";
  time_of = λ _. none;
  locale_leb = λ _ _. true;
  number_text = λ _. "1";
}

abbrev reading : Observation
reading = record { value = pos 540; observation_date = "d"; source = "s"; fetched_at = "f" }

abbrev answers : Answers
answers = record {
  fred = failed "timeout";
  bls = fetched ((6, ("unemployment", reading) ∷ []) ∷ []) [];
  bea = skipped;
  census = skipped;
  noaa = fetched [] [];
}

abbrev scheduler : Scheduler
scheduler = record {
  cache =
      (
        6,
        record {
          state_fips = 6;
          state_abbr = "CA";
          refreshed_at = "t";
          indicators = ("gdp_growth", reading) ∷ [];
        },
      )
      ∷ [];
  shocks = [];
  inflight = false;
  last_refresh_at = none;
  failures_last_hour = [];
  liveness = [];
}

california : is_some (lookup_state_by_fips 6) ≡ true
unfolding lookup_state_by_fips
california = refl

answers-AreProper : AreProper answers
answers-AreProper = record {
  bls = record { states = (refl, tt); kinds = ((refl, tt), tt) };
  bea = record { states = tt; kinds = tt };
  census = record { states = tt; kinds = tt };
}

refresh_once-serves_example :
    (lookup 6 (refresh_once platform (λ _. "soft") 9 answers scheduler).cache
      ≡ or_instead (lookup 6 (gather "now" answers)) (lookup 6 scheduler.cache))
    × (observed 6 "gdp_growth" (gather "now" answers)
        ≡ or_instead (said 6 "gdp_growth" (brought answers.census)) (
            or_instead (said 6 "gdp_growth" (brought answers.bea)) (
              or_instead
                (said 6 "gdp_growth" (brought answers.bls))
                (observed 6 "gdp_growth" (set_many (brought answers.fred) [])))))
refresh_once-serves_example =
    refresh_once-serves platform (λ _. "soft") 9 answers scheduler 6 "gdp_growth" refl california
      answers-AreProper

abbrev three_items : List ℕ
three_items = 10 ∷ 20 ∷ 30 ∷ []

-- The second worker overtakes the first, which holds the first item until the others are done.
abbrev overtaking : List ℕ
overtaking = 0 ∷ 1 ∷ 1 ∷ 1 ∷ 1 ∷ 1 ∷ 0 ∷ 0 ∷ []

run_turns-fills_example :
    (run_turns three_items (λ x. x + 1) overtaking (start three_items 2)).results 0 ≡ some 11
unfolding AreLive start run_turns turn get_elem? ready_workers
run_turns-fills_example =
    run_turns-fills three_items (λ x. x + 1) 2 overtaking 0 10
      (refl, (refl, (refl, (refl, (refl, (refl, (refl, (refl, tt)))))))) refl refl
