-- ===== src/Shared/Credit.antt =====
-- packages/shared/src/credit-rating.ts: the algorithmic credit rating.
-- The source computes in floating point; the model computes the same formulas exactly. The reserve
-- ratio is in basis points, percentages are in hundredths of a percent, and a score is in
-- 1/14000 of a point, the unit in which every term of the formula is a whole number.

pub mod Bounds
pub mod Monotone
mod Tests
use federated_reserve.Prelude.{
  ℕ, ◌+◌, ◌-◌, ◌*◌, min, String, Option, none, some, List, [], ◌∷◌, ◌++◌, if◌then◌else◌, leb, ltb,
  find, last, contains, string_eq, ◌>>=◌,
}
use federated_reserve.Prelude.Int.{ℤ, pos_part, neg_part}
use federated_reserve.Shared.Text.{Text, lit, num, fixed}
use federated_reserve.Shared.Personas.{get_persona}

pub data CreditRating : Type 0 where
  aaa aa_plus aa aa_minus a_plus a a_minus bbb_plus bbb bbb_minus bb b c d : CreditRating

abbrev pub rating_name : CreditRating → String
rating_name aaa = "AAA"
rating_name aa_plus = "AA+"
rating_name aa = "AA"
rating_name aa_minus = "AA-"
rating_name a_plus = "A+"
rating_name a = "A"
rating_name a_minus = "A-"
rating_name bbb_plus = "BBB+"
rating_name bbb = "BBB"
rating_name bbb_minus = "BBB-"
rating_name bb = "BB"
rating_name b = "B"
rating_name c = "C"
rating_name d = "D"

-- `null`, an absent field and a value that is not finite are all `none`.
pub record CreditInputs : Type 0 where
  pub reserve_ratio : ℕ
  pub unemployment_pct : Option ℕ
  pub personal_income_usd : Option ℕ
  pub gdp_growth_pct : Option ℤ
  pub poverty_rate_pct : Option ℕ
  pub shock_pressure : Option ℕ

pub record CreditAssessment : Type 0 where
  pub rating : CreditRating
  pub score : ℕ
  pub yield_floor_bps : ℕ
  pub yield_ceiling_bps : ℕ
  pub summary : Text

pub record Tier : Type 0 where
  pub min_score : ℕ
  pub rating : CreditRating
  pub yield_floor_bps : ℕ
  pub yield_ceiling_bps : ℕ

abbrev tier : ℕ → CreditRating → ℕ → ℕ → Tier
tier m r lo hi = record { min_score = m; rating = r; yield_floor_bps = lo; yield_ceiling_bps = hi }

abbrev pub rating_table : List Tier
rating_table =
    tier 90 aaa 300 450
    ∷ tier 85 aa_plus 325 475
    ∷ tier 80 aa 350 500
    ∷ tier 75 aa_minus 375 525
    ∷ tier 70 a_plus 400 575
    ∷ tier 65 a 425 625
    ∷ tier 60 a_minus 450 675
    ∷ tier 55 bbb_plus 500 750
    ∷ tier 50 bbb 550 825
    ∷ tier 45 bbb_minus 600 900
    ∷ tier 35 bb 700 1100
    ∷ tier 25 b 850 1400
    ∷ tier 15 c 1100 2000
    ∷ tier 0 d 1500 5000
    ∷ []

-- One point of score.
abbrev pub point : ℕ
point = 14000

reserve_score : ℕ → ℕ
reserve_score ratio = min (60 * point) (min ratio 5000 * 210)

unemployment_score : Option ℕ → ℕ
unemployment_score none = 10 * point
unemployment_score (some pct) =
    if leb pct 300 then 20 * point else if leb 1000 pct then 0 else 20 * point - (pct - 300) * 400

income_score : Option ℕ → ℕ
income_score none = 10 * point
income_score (some usd) =
    if leb usd 40000 then 0 else if leb 80000 usd then 20 * point else (usd - 40000) * 7

-- In whole points.
persona_penalty : String → Option ℕ
persona_penalty abbr = do
  persona ← get_persona abbr
  some (
      if contains "pension-stressed" persona.coalitions
      then 8
      else if contains "hurricane-exposed" persona.coalitions
      then 4
      else 0)

-- The growth bonus, -5 to 5 points, as what it adds and what it takes away.
bonus_up : Option ℤ → ℕ
bonus_up none = 0
bonus_up (some g) = min 500 (pos_part g) * 140

bonus_down : Option ℤ → ℕ
bonus_down none = 0
bonus_down (some g) = min 500 (neg_part g) * 140

poverty_penalty : Option ℕ → ℕ
poverty_penalty none = 0
poverty_penalty (some pct) = if ltb 800 pct then min (5 * point) ((pct - 800) * 70) else 0

shock_penalty : Option ℕ → ℕ
shock_penalty none = 0
shock_penalty (some severity) = min (6 * point) (severity * 8400)

-- The clamped sum; `-` stops at 0 as `Math.max(0, …)` does.
pub total_score : ℕ → CreditInputs → ℕ
unfolding reserve_score unemployment_score income_score bonus_up bonus_down poverty_penalty
    shock_penalty
total_score penalty i = min (100 * point) (
    reserve_score i.reserve_ratio
    + unemployment_score i.unemployment_pct
    + income_score i.personal_income_usd
    + bonus_up i.gdp_growth_pct
    - (bonus_down i.gdp_growth_pct
        + penalty * point
        + (poverty_penalty i.poverty_rate_pct + shock_penalty i.shock_pressure)))

-- `RATING_TABLE.find(…) ?? RATING_TABLE[RATING_TABLE.length - 1]`
pub tier_in : List Tier → ℕ → Option Tier
tier_in table score = elim (find (λ t. leb (t.min_score * point) score) table) [
  | some t ↦ some t
  | none ↦ last table
]

optional : Option ℕ → (ℕ → Text) → Text
optional none f = []
optional (some n) f = f n

summary_text : String → ℕ → Tier → ℕ → CreditInputs → Text
unfolding optional
summary_text abbr penalty t score i =
    lit abbr
    ∷ lit " credit: score="
    ∷ fixed 1 score point
    ∷ lit " → "
    ∷ lit (rating_name t.rating)
    ∷ lit "(reserves="
    ∷ fixed 1 i.reserve_ratio 100
    ∷ lit "%"
    ∷ (optional i.unemployment_pct (λ p. lit ", unemp=" ∷ fixed 1 p 100 ∷ lit "%" ∷ [])
        ++ (optional i.personal_income_usd (λ u. lit ", income=$" ∷ fixed 0 u 1000 ∷ lit "k" ∷ [])
            ++ ((if ltb 0 penalty then lit ", penalty=" ∷ num penalty ∷ [] else [])
                ++ (lit ").Yield floor "
                    ∷ num t.yield_floor_bps
                    ∷ lit "bps, ceiling "
                    ∷ num t.yield_ceiling_bps
                    ∷ lit "bps."
                    ∷ []))))

-- The result for the tier that was found; with none the row is the defensive one.
quote_tier : String → ℕ → CreditInputs → ℕ → Option Tier → CreditAssessment
unfolding summary_text
quote_tier abbr penalty i score none = record {
  rating = d;
  score = score;
  yield_floor_bps = 1500;
  yield_ceiling_bps = 5000;
  summary =
      lit abbr ∷ lit " credit: score=" ∷ fixed 1 score point ∷ lit " (no rating tier matched)" ∷ [];
}
quote_tier abbr penalty i score (some t) = record {
  rating = t.rating;
  score = score;
  yield_floor_bps = t.yield_floor_bps;
  yield_ceiling_bps = t.yield_ceiling_bps;
  summary = summary_text abbr penalty t score i;
}

rate : String → ℕ → CreditInputs → CreditAssessment
unfolding total_score tier_in quote_tier
rate abbr penalty i =
    quote_tier abbr penalty i (total_score penalty i) (tier_in rating_table (total_score penalty i))

-- `none` is the error that `getPersona` raises on an unknown abbreviation.
unfoldable pub assess_credit : String → CreditInputs → Option CreditAssessment
unfolding rate persona_penalty
assess_credit abbr i = persona_penalty abbr >>= λ penalty. some (rate abbr penalty i)
