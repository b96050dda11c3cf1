-- ===== src/Agent/Auction/Evaluate/Best.antt =====
-- The deterministic choice of an evaluation.
use federated_reserve.Prelude.{
  Bool-cases, ltb, ℕ, ◌≤◌, ◌<◌, ◌≡◌, refl, sym, ◌∙◌, All-of_length_zero, String, none, some, List,
  [], ◌∷◌, true, false, arith, All, first, length, All-imp, Option-cases, inl, inr, ◌⊎◌,
}
use federated_reserve.Prelude.Sort.{sort, first-sort, length-sort}
use federated_reserve.Shared.Credit.{CreditAssessment}
use federated_reserve.Shared.Skills.{BondBid}
use federated_reserve.Agent.Auction.Evaluate.{
  eligible_bids, cheaper, apply_decision, choose_from, choose, evaluate_bond_auction, question_of,
}
use federated_reserve.Agent.Auction.Evaluate.Guardrail.{IsWithin, IsCandidate, choose-IsCandidate}

-- The first bid has the lower yield, or the same yield and at least the principal.
abbrev pub IsBetter : BondBid → BondBid → Type 0
IsBetter w b =
    (w.bid_yield_bps < b.bid_yield_bps)
    ⊎ ((w.bid_yield_bps ≡ b.bid_yield_bps) × (b.principal_usd ≤ w.principal_usd))

cheaper-IsBetter : (w b : BondBid) → cheaper w b ≡ true → IsBetter w b
unfolding cheaper
cheaper-IsBetter w b h = ground arith

cheaper-total : (a b : BondBid) → cheaper a b ≡ false → cheaper b a ≡ true
unfolding cheaper
cheaper-total a b h = ground arith

cheaper_trans : (a b c : BondBid) → cheaper a b ≡ true → cheaper b c ≡ true → cheaper a c ≡ true
unfolding cheaper
cheaper_trans a b c h k = ground arith

module _ (floor ceiling : ℕ) where
  -- What holds of the eligible bids holds of every bid inside the guardrail.
  eligible_bids_complete :
      (P : BondBid → Type 0) (bids : List BondBid)
      → All P (eligible_bids floor ceiling bids)
      → All (λ b. IsWithin floor ceiling b → P b) bids
  unfolding eligible_bids
  eligible_bids_complete P [] h = tt
  eligible_bids_complete P (b ∷ bids) h = ground (arith, eligible_bids_complete P bids)

choose_from-first : (bs : List BondBid) → (choose_from bs none).0 ≡ first bs
unfolding choose_from apply_decision
choose_from-first [] = refl
choose_from-first (b ∷ bs) = refl

choose-none :
    (abbr bond_id : String) (credit : CreditAssessment) (bids : List BondBid)
    → (choose none (question_of abbr bond_id credit bids)).0
      ≡ first (sort cheaper (eligible_bids credit.yield_floor_bps credit.yield_ceiling_bps bids))
unfolding choose
choose-none abbr bond_id credit bids = choose_from-first _

first-eq-none {ℓ} : {A : Type ℓ} (xs : List A) → first xs ≡ none → length xs ≡ 0
first-eq-none [] e = refl
first-eq-none (x ∷ xs) e = cc

module _ (floor ceiling : ℕ) (bids : List BondBid) where
  no_candidate :
      first (sort cheaper (eligible_bids floor ceiling bids)) ≡ none
      → All (λ b. IsWithin floor ceiling b → ⊥) bids
  no_candidate e =
      eligible_bids_complete floor ceiling (λ _. ⊥) bids
        (All-of_length_zero (λ _. ⊥) (eligible_bids floor ceiling bids)
          (sym (length-sort cheaper (eligible_bids floor ceiling bids)) ∙ first-eq-none _ e))

  best_candidate :
      (w : BondBid)
      → first (sort cheaper (eligible_bids floor ceiling bids)) ≡ some w
      → All (λ b. IsWithin floor ceiling b → IsBetter w b) bids
  best_candidate w e = eligible_bids_complete floor ceiling (IsBetter w) bids (
      All-imp _ (IsBetter w) (eligible_bids floor ceiling bids) (cheaper-IsBetter w)
        (first-sort cheaper cheaper-total cheaper_trans (eligible_bids floor ceiling bids) w e))

outside_or_IsBetter :
    (floor ceiling : ℕ) (w b : BondBid)
    → (IsWithin floor ceiling b → IsBetter w b)
    → (¬ IsWithin floor ceiling b) ⊎ IsBetter w b
outside_or_IsBetter floor ceiling w b h = elim (Bool-cases (ltb b.bid_yield_bps floor)) [
  | inl e ↦ inl (λ k. ground arith)
  | inr e ↦ elim (Bool-cases (ltb ceiling b.bid_yield_bps)) [
    | inl f ↦ inl (λ k. ground arith)
    | inr f ↦ inr (h (ground arith))
  ]
]

-- With no language model, the winner of an auction is a bid inside the guardrail that has, among
-- all bids inside it, the lowest yield, and at that yield the largest principal; if there is no
-- winner then no bid is inside the guardrail.
pub evaluate_bond_auction-best :
    (abbr bond_id : String) (credit : CreditAssessment) (bids : List BondBid)
    → let e = evaluate_bond_auction abbr bond_id credit none bids in
      let inside = IsWithin credit.yield_floor_bps credit.yield_ceiling_bps in
      ((e.winner_fips ≡ none) × All (λ b. ¬ inside b) bids)
      ⊎ ((w : BondBid) × (e.winner_fips ≡ some w.bidder_fips)
          × IsCandidate credit bids w
          × All (λ b. (¬ inside b) ⊎ IsBetter w b) bids)
unfolding evaluate_bond_auction
evaluate_bond_auction-best abbr bond_id credit bids =
    let chosen = choose-none abbr bond_id credit bids in
    elim (Option-cases (choose none (question_of abbr bond_id credit bids)).0) [
      | inl e ↦ inl (rw e, no_candidate _ _ bids (sym chosen ∙ e))
      | inr (w, e) ↦ inr (
        w,
        rw e,
        choose-IsCandidate abbr bond_id credit none bids w e,
        All-imp _ _ bids (outside_or_IsBetter credit.yield_floor_bps credit.yield_ceiling_bps w)
            (best_candidate _ _ bids w (sym chosen ∙ e)),
      )
    ]
