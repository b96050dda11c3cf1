-- ===== src/Shared/Credit/Tests.antt =====
-- The assessment of concrete states.
use federated_reserve.Prelude.{◌≤◌, ◌≡◌, refl, none, some, arith}
use federated_reserve.Shared.Personas.{get_persona}
use federated_reserve.Shared.Credit.{CreditInputs, rate, persona_penalty, assess_credit}
use federated_reserve.Shared.Credit.Monotone.{
  IsSound, IsStronger, assess_credit-IsSound, assess_credit_mono,
}

abbrev thin : CreditInputs
thin = record {
  reserve_ratio = 1000;
  unemployment_pct = some 800;
  personal_income_usd = some 40000;
  gdp_growth_pct = none;
  poverty_rate_pct = none;
  shock_pressure = none;
}

abbrev strong : CreditInputs
strong = record {
  reserve_ratio = 3000;
  unemployment_pct = some 400;
  personal_income_usd = some 70000;
  gdp_growth_pct = none;
  poverty_rate_pct = none;
  shock_pressure = none;
}

thin_assessed : assess_credit "TX" thin ≡ some (rate "TX" 0 thin)
unfolding assess_credit persona_penalty get_persona
thin_assessed = refl

strong_assessed : assess_credit "TX" strong ≡ some (rate "TX" 0 strong)
unfolding assess_credit persona_penalty get_persona
strong_assessed = refl

strong-IsStronger : IsStronger thin strong
strong-IsStronger = record {
  reserves = omega arith;
  unemployment = omega arith;
  income = omega arith;
  growth = tt;
  poverty = tt;
  shocks = tt;
}

assess_credit-IsSound_example : IsSound (rate "TX" 0 thin)
assess_credit-IsSound_example = assess_credit-IsSound "TX" thin (rate "TX" 0 thin) thin_assessed

assess_credit_mono_example :
    let a = rate "TX" 0 thin in
    let b = rate "TX" 0 strong in
    (a.score ≤ b.score)
    × (b.yield_floor_bps ≤ a.yield_floor_bps)
    × (b.yield_ceiling_bps ≤ a.yield_ceiling_bps)
assess_credit_mono_example =
    assess_credit_mono "TX" thin strong (rate "TX" 0 thin) (rate "TX" 0 strong) strong-IsStronger
      thin_assessed strong_assessed
