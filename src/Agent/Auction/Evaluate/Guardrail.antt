-- ===== src/Agent/Auction/Evaluate/Guardrail.antt =====
-- The credit guardrail of evaluateBondAuction.
use federated_reserve.Prelude.{
  ℕ, ◌≤◌, ◌<◌, ◌⊎◌, ◌≡◌, subst, String, Option, none, some, List, [], ◌∷◌, arith, All, In, first,
  All-find, All-In_self, Option-cases, inl, inr,
}
use federated_reserve.Prelude.Sort.{All-sort}
use federated_reserve.Shared.Credit.{CreditAssessment}
use federated_reserve.Shared.Skills.{BondBid}
use federated_reserve.Agent.Auction.Evaluate.{
  AuctionReasoner, ModelDecision, eligible_bids, ineligible_bids, cheaper, same_bidder,
  apply_decision, choose_from, choose, evaluate_bond_auction, question_of,
}

-- The yield lies between the floor and the ceiling.
pub record IsWithin (floor ceiling : ℕ) (b : BondBid) : Type 0 where
  pub above : floor ≤ b.bid_yield_bps
  pub below : b.bid_yield_bps ≤ ceiling

module _ (floor ceiling : ℕ) (P : BondBid → Type 0) where
  pub eligible_bids-All :
      (bids : List BondBid)
      → All P bids
      → All (λ b. P b × IsWithin floor ceiling b) (eligible_bids floor ceiling bids)
  unfolding eligible_bids
  eligible_bids-All [] h = tt
  eligible_bids-All (b ∷ bids) (p, h) = ground (arith, eligible_bids-All bids h)

  pub ineligible_bids-All :
      (bids : List BondBid)
      → All P bids
      → All
          (λ x. P x.0 × ((x.0.bid_yield_bps < floor) ⊎ (ceiling < x.0.bid_yield_bps)))
          (ineligible_bids floor ceiling bids)
  unfolding ineligible_bids
  ineligible_bids-All [] h = tt
  ineligible_bids-All (b ∷ bids) (p, h) = ground (arith, ineligible_bids-All bids h)

module _ (P : BondBid → Type 0) where
  pub first-All : (bs : List BondBid) (w : BondBid) → All P bs → first bs ≡ some w → P w
  first-All [] w h e = cc
  first-All (b ∷ bs) w (p, h) e = let same : b ≡ w = ground arith in subst P same p

  apply_decision-All :
      (bs : List BondBid) (d : Option ModelDecision) (w : BondBid)
      → All P bs
      → (apply_decision bs d).0 ≡ some w
      → P w
  unfolding apply_decision
  apply_decision-All bs none w h e = first-All bs w h e
  apply_decision-All bs (some d) w h e =
      ground (arith, first-All bs w h, All-find P (same_bidder d.winner_fips) bs w h)

  choose_from-All :
      (bs : List BondBid) (d : Option ModelDecision) (w : BondBid)
      → All P bs
      → (choose_from bs d).0 ≡ some w
      → P w
  unfolding choose_from
  choose_from-All [] d w h e = cc
  choose_from-All (b ∷ bs) d w h e = apply_decision-All (b ∷ bs) d w h e

-- The bids of the auction that its guardrail lets through.
abbrev pub IsCandidate : CreditAssessment → List BondBid → BondBid → Type 0
IsCandidate credit bids b = In b bids × IsWithin credit.yield_floor_bps credit.yield_ceiling_bps b

module _ (abbr bond_id : String) (credit : CreditAssessment) (reasoner : AuctionReasoner)
    (bids : List BondBid) where
  pub question_of-All :
      All (IsCandidate credit bids) (question_of abbr bond_id credit bids).eligible
  question_of-All =
      All-sort cheaper (IsCandidate credit bids) _
        (eligible_bids-All _ _ (λ b. In b bids) bids (All-In_self bids))

  pub choose-IsCandidate :
      (w : BondBid)
      → (choose reasoner (question_of abbr bond_id credit bids)).0 ≡ some w
      → IsCandidate credit bids w
  unfolding choose
  choose-IsCandidate w e = choose_from-All (IsCandidate credit bids) _ _ w question_of-All e

  -- Whoever wins an evaluation has a bid in the auction whose yield lies between the floor and the
  -- ceiling of the issuer's credit assessment, whatever the language model answers or if it fails.
  pub evaluate_bond_auction-IsWithin :
      (fips : ℕ)
      → (evaluate_bond_auction abbr bond_id credit reasoner bids).winner_fips ≡ some fips
      → (w : BondBid) × IsCandidate credit bids w × (w.bidder_fips ≡ fips)
  unfolding evaluate_bond_auction
  evaluate_bond_auction-IsWithin fips e =
      elim (Option-cases (choose reasoner (question_of abbr bond_id credit bids)).0) [
        | inl missing ↦ absurd (ground arith)
        | inr (w, found) ↦ (w, choose-IsCandidate w found, ground arith)
      ]
