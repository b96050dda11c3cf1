-- ===== src/Shared/States.antt =====
-- packages/shared/src/states.ts: the states, the territories and the two federal agents.
use federated_reserve.Prelude.{
  ℕ, String, Option, List, [], ◌∷◌, ◌++◌, if◌then◌else◌, ◌==◌, nat_eq, string_eq, find, contains,
}
use federated_reserve.Shared.Text.{upper}

pub data StateTier : Type 0 where
  deep observer federal : StateTier

pub data CensusRegion : Type 0 where
  northeast midwest south west territory federal_region : CensusRegion

pub record StateInfo : Type 0 where
  pub fips : ℕ
  pub abbr : String
  pub name : String
  pub region : CensusRegion
  pub tier : StateTier

abbrev deep_abbrs : List String
deep_abbrs = "MA" ∷ "CA" ∷ "TX" ∷ "NY" ∷ "FL" ∷ "IL" ∷ "WA" ∷ "AK" ∷ []

-- One row of `RAW`, with the tier that `STATES` gives it.
abbrev raw : ℕ → String → String → CensusRegion → StateInfo
raw fips abbr name region = record {
  fips = fips;
  abbr = abbr;
  name = name;
  region = region;
  tier = if contains abbr deep_abbrs then deep else observer;
}

raw_states : List StateInfo
raw_states =
    raw 1 "AL" "Alabama" south
    ∷ raw 2 "AK" "Alaska" west
    ∷ raw 4 "AZ" "Arizona" west
    ∷ raw 5 "AR" "Arkansas" south
    ∷ raw 6 "CA" "California" west
    ∷ raw 8 "CO" "Colorado" west
    ∷ raw 9 "CT" "Connecticut" northeast
    ∷ raw 10 "DE" "Delaware" south
    ∷ raw 11 "DC" "District of Columbia" south
    ∷ raw 12 "FL" "Florida" south
    ∷ raw 13 "GA" "Georgia" south
    ∷ raw 15 "HI" "Hawaii" west
    ∷ raw 16 "ID" "Idaho" west
    ∷ raw 17 "IL" "Illinois" midwest
    ∷ raw 18 "IN" "Indiana" midwest
    ∷ raw 19 "IA" "Iowa" midwest
    ∷ raw 20 "KS" "Kansas" midwest
    ∷ raw 21 "KY" "Kentucky" south
    ∷ raw 22 "LA" "Louisiana" south
    ∷ raw 23 "ME" "Maine" northeast
    ∷ raw 24 "MD" "Maryland" south
    ∷ raw 25 "MA" "Massachusetts" northeast
    ∷ raw 26 "MI" "Michigan" midwest
    ∷ raw 27 "MN" "Minnesota" midwest
    ∷ raw 28 "MS" "Mississippi" south
    ∷ raw 29 "MO" "Missouri" midwest
    ∷ raw 30 "MT" "Montana" west
    ∷ raw 31 "NE" "Nebraska" midwest
    ∷ raw 32 "NV" "Nevada" west
    ∷ raw 33 "NH" "New Hampshire" northeast
    ∷ raw 34 "NJ" "New Jersey" northeast
    ∷ raw 35 "NM" "New Mexico" west
    ∷ raw 36 "NY" "New York" northeast
    ∷ raw 37 "NC" "North Carolina" south
    ∷ raw 38 "ND" "North Dakota" midwest
    ∷ raw 39 "OH" "Ohio" midwest
    ∷ raw 40 "OK" "Oklahoma" south
    ∷ raw 41 "OR" "Oregon" west
    ∷ raw 42 "PA" "Pennsylvania" northeast
    ∷ raw 44 "RI" "Rhode Island" northeast
    ∷ raw 45 "SC" "South Carolina" south
    ∷ raw 46 "SD" "South Dakota" midwest
    ∷ raw 47 "TN" "Tennessee" south
    ∷ raw 48 "TX" "Texas" south
    ∷ raw 49 "UT" "Utah" west
    ∷ raw 50 "VT" "Vermont" northeast
    ∷ raw 51 "VA" "Virginia" south
    ∷ raw 53 "WA" "Washington" west
    ∷ raw 54 "WV" "West Virginia" south
    ∷ raw 55 "WI" "Wisconsin" midwest
    ∷ raw 56 "WY" "Wyoming" west
    ∷ raw 72 "PR" "Puerto Rico" territory
    ∷ []

federal_agents : List StateInfo
federal_agents =
    record {
      fips = 100;
      abbr = "FED";
      name = "Federal Reserve";
      region = federal_region;
      tier = federal;
    }
    ∷ record {
      fips = 101;
      abbr = "TRS";
      name = "US Treasury";
      region = federal_region;
      tier = federal;
    }
    ∷ []

unfoldable pub states : List StateInfo
unfolding raw_states federal_agents
states = raw_states ++ federal_agents

-- `STATES_BY_FIPS[fips]`; no two rows share a number, so the first row is the one that is kept.
unfoldable pub lookup_state_by_fips : ℕ → Option StateInfo
unfolding states
lookup_state_by_fips fips = find (λ s. s.fips == fips) states

unfoldable pub lookup_state_by_abbr : String → Option StateInfo
unfolding states upper
lookup_state_by_abbr abbr = find (λ s. s.abbr == upper abbr) states
