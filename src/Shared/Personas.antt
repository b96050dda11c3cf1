-- ===== src/Shared/Personas.antt =====
-- packages/shared/src/personas.ts: the coalition tags of each agent. The prose of a persona, which
-- only a prompt shows, is left out.
use federated_reserve.Prelude.{String, Option, none, some, List, [], ◌∷◌, Bool, string_eq, contains}
use federated_reserve.Prelude.Dict.{Dict, lookup}
use federated_reserve.Shared.Text.{upper, lower}
use federated_reserve.Shared.States.{
  StateInfo, CensusRegion, northeast, midwest, south, west, territory, federal_region,
  lookup_state_by_abbr,
}

pub record StatePersona : Type 0 where
  pub abbr : String
  pub coalitions : List String

abbrev persona : String → List String → String × StatePersona
persona abbr tags = (abbr, record { abbr = abbr; coalitions = tags })

deep_personas : Dict String StatePersona
deep_personas =
    persona "MA" ("northeast" ∷ "tech-correlated" ∷ [])
    ∷ persona "CA" ("west" ∷ "climate-exposed" ∷ "tech-correlated" ∷ [])
    ∷ persona "TX" ("south" ∷ "gulf-disaster-pool" ∷ "energy-correlated" ∷ [])
    ∷ persona "NY" ("northeast" ∷ "finance-correlated" ∷ [])
    ∷ persona "FL" ("south" ∷ "hurricane-exposed" ∷ "gulf-disaster-pool" ∷ [])
    ∷ persona "IL" ("midwest" ∷ "pension-stressed" ∷ [])
    ∷ persona "WA" ("west" ∷ "tech-correlated" ∷ "climate-exposed" ∷ [])
    ∷ persona "AK" ("west" ∷ "energy-correlated" ∷ "sovereign-wealth-style" ∷ [])
    ∷ persona "FED" ("federal" ∷ [])
    ∷ persona "TRS" ("federal" ∷ [])
    ∷ []

-- The spelling of a region.
abbrev pub region_name : CensusRegion → String
region_name northeast = "northeast"
region_name midwest = "midwest"
region_name south = "south"
region_name west = "west"
region_name territory = "territory"
region_name federal_region = "federal"

generic_observer_posture : StateInfo → StatePersona
generic_observer_posture state = record {
  abbr = state.abbr;
  coalitions = region_name state.region ∷ [];
}

-- `none` is the error on an unknown abbreviation.
unfoldable pub get_persona : String → Option StatePersona
unfolding deep_personas generic_observer_posture lookup_state_by_abbr upper
get_persona abbr = elim (lookup (upper abbr) deep_personas) [
  | some explicit ↦ some explicit
  | none ↦ elim (lookup_state_by_abbr (upper abbr)) [
    | none ↦ none
    | some state ↦ some (generic_observer_posture state)
  ]
]

unfoldable pub has_coalition_affinity : String → String → Option Bool
unfolding get_persona lower
has_coalition_affinity abbr tag = elim (get_persona abbr) [
  | none ↦ none
  | some p ↦ some (contains (lower tag) p.coalitions)
]
