-- ===== src/Shared/Credit/Bounds.antt =====
-- The tier that a score reaches: the search through `RATING_TABLE`, over any graded table.
use federated_reserve.Prelude.{
  ℕ, ◌*◌, ◌≤◌, ◌<◌, ◌≡◌, refl, subst, some, List, [], ◌∷◌, Bool, arith, leb, find, All, inl, inr,
  Bool-cases, All-find, All-imp, find_complete,
}
use federated_reserve.Shared.Credit.{Tier, rating_table, point}

-- Later rows want less and cost more.
abbrev pub IsGraded : List Tier → Type 0
IsGraded [] = Unit
IsGraded (t ∷ ts) =
    All
      (λ r.
        (r.min_score < t.min_score)
        × (t.yield_floor_bps ≤ r.yield_floor_bps)
        × (t.yield_ceiling_bps ≤ r.yield_ceiling_bps))
      ts
    × IsGraded ts

abbrev pub reached : ℕ → Tier → Bool
reached score t = leb (t.min_score * point) score

pub rating_table-IsGraded : IsGraded rating_table
rating_table-IsGraded = omega arith

-- Some row of the table is reached by every score.
pub find-rating_table : (score : ℕ) → (t : Tier) × (find (reached score) rating_table ≡ some t)
find-rating_table score =
    find_complete (reached score) rating_table _
      (inr (inr (inr (inr (inr (inr (inr (inr (inr (inr (inr (inr (inr (inl refl))))))))))))))
      (ground arith)

-- The row found is the highest of those reached.
pub find-highest :
    (score : ℕ) (ts : List Tier) (t : Tier)
    → IsGraded ts
    → find (reached score) ts ≡ some t
    → All (λ r. r.min_score * point ≤ score → r.min_score ≤ t.min_score) ts
find-highest score [] t g e = tt
find-highest score (x ∷ xs) t (g, gs) e = elim (Bool-cases (reached score x)) [
  | inl h ↦
      let same : x ≡ t = ground arith in
      subst (λ z. All (λ r. r.min_score * point ≤ score → r.min_score ≤ z.min_score) (x ∷ xs)) same
        (λ _. omega arith, All-imp _ _ xs (λ r k _. omega arith) g)
  | inr h ↦ (λ k. absurd (ground arith), find-highest score xs t gs (ground arith))
]

-- A higher score finds a row that is no dearer.
pub find_mono :
    (low high : ℕ) (ts : List Tier) (t u : Tier)
    → IsGraded ts
    → low ≤ high
    → find (reached low) ts ≡ some t
    → find (reached high) ts ≡ some u
    → (u.yield_floor_bps ≤ t.yield_floor_bps) × (u.yield_ceiling_bps ≤ t.yield_ceiling_bps)
find_mono low high [] t u g h e f = cc
find_mono low high (x ∷ xs) t u (g, gs) h e f =
    ground (arith, find_mono low high xs t u gs h, All-find _ (reached low) xs t g)
