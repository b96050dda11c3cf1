-- ===== src/Shared/Credit/Monotone.antt =====
-- What an assessment promises, and how it moves with its inputs.
use federated_reserve.Prelude.{
  ℕ, ◌⊎◌, All-imp, leb, Bool-cases, ◌*◌, ◌≤◌, ◌<◌, ◌≡◌, refl, ap, sym, ◌∙◌, inl, inr, subst, String,
  Option, none, some, arith, All, In, Option-cases, All-find, find, find_sound, find-In,
}
use federated_reserve.Prelude.Int.{ℤ, pos, negsuc, ◌≤ℤ◌}
use federated_reserve.Shared.Credit.{
  Tier, rating_table, point, tier_in, CreditInputs, CreditAssessment, reserve_score,
  unemployment_score, income_score, persona_penalty, bonus_up, bonus_down, poverty_penalty,
  shock_penalty, total_score, quote_tier, rate, assess_credit,
}
use federated_reserve.Shared.Credit.Bounds.{
  reached, rating_table-IsGraded, find-rating_table, find-highest, find_mono,
}

-- What an assessment promises: the row of the table that it quotes is the highest that the score
-- reaches.
pub record IsSound (a : CreditAssessment) : Type 0 where
  pub row : Tier
  pub listed : In row rating_table
  pub rating : a.rating ≡ row.rating
  pub floor : a.yield_floor_bps ≡ row.yield_floor_bps
  pub ceiling : a.yield_ceiling_bps ≡ row.yield_ceiling_bps
  pub met : row.min_score * point ≤ a.score
  pub highest :
      All (λ r. (a.score < r.min_score * point) ⊎ (r.min_score ≤ row.min_score)) rating_table
  pub spread : a.yield_floor_bps < a.yield_ceiling_bps
  pub capped : a.score ≤ 100 * point

table-spread : All (λ t. t.yield_floor_bps < t.yield_ceiling_bps) rating_table
table-spread = omega arith

total_score-le : (penalty : ℕ) (i : CreditInputs) → total_score penalty i ≤ 100 * point
unfolding total_score
total_score-le penalty i = omega arith

tier_in_of_find :
    (score : ℕ) (t : Tier)
    → find (reached score) rating_table ≡ some t
    → tier_in rating_table score ≡ some t
unfolding tier_in
tier_in_of_find score t e = rw (e, tier_in)

rate_of_find :
    (abbr : String) (penalty : ℕ) (i : CreditInputs) (t : Tier)
    → find (reached (total_score penalty i)) rating_table ≡ some t
    → rate abbr penalty i ≡ quote_tier abbr penalty i (total_score penalty i) (some t)
unfolding rate
rate_of_find abbr penalty i t e =
    ap (quote_tier abbr penalty i (total_score penalty i))
      (tier_in_of_find (total_score penalty i) t e)

missed_or_lower :
    (score : ℕ) (row r : Tier)
    → (r.min_score * point ≤ score → r.min_score ≤ row.min_score)
    → (score < r.min_score * point) ⊎ (r.min_score ≤ row.min_score)
missed_or_lower score row r h = elim (Bool-cases (leb (r.min_score * point) score)) [
  | inl e ↦ inr (h (ground arith))
  | inr e ↦ inl (ground arith)
]

rate-IsSound : (abbr : String) (penalty : ℕ) (i : CreditInputs) → IsSound (rate abbr penalty i)
unfolding quote_tier
rate-IsSound abbr penalty i =
    let score : ℕ = total_score penalty i in
    let (t, found) = find-rating_table score in
    subst IsSound (sym (rate_of_find abbr penalty i t found)) (record {
      row = t;
      listed = find-In (reached score) rating_table t found;
      rating = refl;
      floor = refl;
      ceiling = refl;
      met = ground (arith, find_sound (reached score) rating_table t found);
      highest =
          All-imp _ _ rating_table (λ r. missed_or_lower score t r)
            (find-highest score rating_table t rating_table-IsGraded found);
      spread =
          All-find (λ r. r.yield_floor_bps < r.yield_ceiling_bps) (reached score) rating_table t
            table-spread found;
      capped = total_score-le penalty i;
    })

assess_credit-inv :
    (abbr : String) (i : CreditInputs) (a : CreditAssessment)
    → assess_credit abbr i ≡ some a
    → (p : ℕ) × (persona_penalty abbr ≡ some p) × (rate abbr p i ≡ a)
unfolding assess_credit
assess_credit-inv abbr i a e = elim (Option-cases (persona_penalty abbr)) [
  | inl missing ↦ absurd (ground arith)
  | inr (p, found) ↦ (p, found, ground arith)
]

-- Every assessment quotes a row of the rating table, the highest row whose minimum the score
-- reaches; its floor lies below its ceiling and its score is at most 100 points.
pub assess_credit-IsSound :
    (abbr : String) (i : CreditInputs) (a : CreditAssessment)
    → assess_credit abbr i ≡ some a
    → IsSound a
assess_credit-IsSound abbr i a e =
    let (p, _, same) = assess_credit-inv abbr i a e in subst IsSound same (rate-IsSound abbr p i)

-- A figure that a lower value makes better: both are unknown, or the second is not above the first.
abbrev Falls : Option ℕ → Option ℕ → Type 0
Falls none none = Unit
Falls (some a) (some b) = b ≤ a
Falls _ _ = ⊥

abbrev Rises : Option ℕ → Option ℕ → Type 0
Rises none none = Unit
Rises (some a) (some b) = a ≤ b
Rises _ _ = ⊥

abbrev Grows : Option ℤ → Option ℤ → Type 0
Grows none none = Unit
Grows (some a) (some b) = ◌≤ℤ◌ a b
Grows _ _ = ⊥

-- The second inputs are at least as strong in every figure.
pub record IsStronger (i j : CreditInputs) : Type 0 where
  pub reserves : i.reserve_ratio ≤ j.reserve_ratio
  pub unemployment : Falls i.unemployment_pct j.unemployment_pct
  pub income : Rises i.personal_income_usd j.personal_income_usd
  pub growth : Grows i.gdp_growth_pct j.gdp_growth_pct
  pub poverty : Falls i.poverty_rate_pct j.poverty_rate_pct
  pub shocks : Falls i.shock_pressure j.shock_pressure

unemployment_score_mono : (a b : Option ℕ) → Falls a b → unemployment_score a ≤ unemployment_score b
unfolding unemployment_score
unemployment_score_mono none none h = omega arith
unemployment_score_mono none (some b) h = elim h [ ]
unemployment_score_mono (some a) none h = elim h [ ]
unemployment_score_mono (some a) (some b) h = ground arith

income_score_mono : (a b : Option ℕ) → Rises a b → income_score a ≤ income_score b
unfolding income_score
income_score_mono none none h = omega arith
income_score_mono none (some b) h = elim h [ ]
income_score_mono (some a) none h = elim h [ ]
income_score_mono (some a) (some b) h = ground arith

bonus_mono :
    (a b : Option ℤ) → Grows a b → (bonus_up a ≤ bonus_up b) × (bonus_down b ≤ bonus_down a)
unfolding bonus_up bonus_down
bonus_mono none none h = omega arith
bonus_mono none (some b) h = elim h [ ]
bonus_mono (some a) none h = elim h [ ]
bonus_mono (some (pos a)) (some (pos b)) h = omega arith
bonus_mono (some (pos a)) (some (negsuc b)) h = absurd (omega arith)
bonus_mono (some (negsuc a)) (some (pos b)) h = omega arith
bonus_mono (some (negsuc a)) (some (negsuc b)) h = omega arith

poverty_penalty_mono : (a b : Option ℕ) → Falls a b → poverty_penalty b ≤ poverty_penalty a
unfolding poverty_penalty
poverty_penalty_mono none none h = omega arith
poverty_penalty_mono none (some b) h = elim h [ ]
poverty_penalty_mono (some a) none h = elim h [ ]
poverty_penalty_mono (some a) (some b) h = ground arith

shock_penalty_mono : (a b : Option ℕ) → Falls a b → shock_penalty b ≤ shock_penalty a
unfolding shock_penalty
shock_penalty_mono none none h = omega arith
shock_penalty_mono none (some b) h = elim h [ ]
shock_penalty_mono (some a) none h = elim h [ ]
shock_penalty_mono (some a) (some b) h = omega arith

reserve_score_mono : (a b : ℕ) → a ≤ b → reserve_score a ≤ reserve_score b
unfolding reserve_score
reserve_score_mono a b h = omega arith

total_score_mono :
    (penalty : ℕ) (i j : CreditInputs)
    → IsStronger i j
    → total_score penalty i ≤ total_score penalty j
unfolding total_score
total_score_mono penalty i j h = omega (
  arith,
  reserve_score_mono i.reserve_ratio j.reserve_ratio h.reserves,
  unemployment_score_mono i.unemployment_pct j.unemployment_pct h.unemployment,
  income_score_mono i.personal_income_usd j.personal_income_usd h.income,
  bonus_mono i.gdp_growth_pct j.gdp_growth_pct h.growth,
  poverty_penalty_mono i.poverty_rate_pct j.poverty_rate_pct h.poverty,
  shock_penalty_mono i.shock_pressure j.shock_pressure h.shocks,
)

-- For one state, inputs that are at least as strong in every figure give a score that is no lower,
-- and a yield floor and a yield ceiling that are no higher.
pub assess_credit_mono :
    (abbr : String) (i j : CreditInputs) (a b : CreditAssessment)
    → IsStronger i j
    → assess_credit abbr i ≡ some a
    → assess_credit abbr j ≡ some b
    → (a.score ≤ b.score)
      × (b.yield_floor_bps ≤ a.yield_floor_bps)
      × (b.yield_ceiling_bps ≤ a.yield_ceiling_bps)
unfolding quote_tier
assess_credit_mono abbr i j a b h e f =
    let (p, known, same_a) = assess_credit-inv abbr i a e in
    let (q, known', same_b) = assess_credit-inv abbr j b f in
    let (t, found) = find-rating_table (total_score p i) in
    let (u, found') = find-rating_table (total_score q j) in
    let ea = sym same_a ∙ rate_of_find abbr p i t found in
    let eb = sym same_b ∙ rate_of_find abbr q j u found' in
    let same_penalty : p ≡ q = ground arith in
    let better : total_score p i ≤ total_score q j =
      subst (λ z. total_score p i ≤ total_score z j) same_penalty (total_score_mono p i j h) in
    let cheaper = find_mono _ _ rating_table t u rating_table-IsGraded better found found' in
    rw (ea, eb) (better, cheaper.0, cheaper.1)
