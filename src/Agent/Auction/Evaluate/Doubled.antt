-- ===== src/Agent/Auction/Evaluate/Doubled.antt =====
-- A bidder with two bids, one of them under the floor.
use federated_reserve.Prelude.{
  ℕ, ◌<◌, ◌≡◌, String, some, List, [], ◌∷◌, arith, All, In, find, All-imp, All-map, All-In_self,
  find_complete, Bool-cases, Option-cases, inl, inr, ◌==◌, nat_eq,
}
use federated_reserve.Shared.Credit.{CreditAssessment}
use federated_reserve.Shared.Skills.{BondBid, rejected}
use federated_reserve.Agent.Auction.Evaluate.{
  Reason, below_floor, AuctionReasoner, AuctionQuestion, ineligible_bids, choose, verdict_for,
  evaluate_bond_auction, question_of,
}
use federated_reserve.Agent.Auction.Evaluate.Verdicts.{verdict_of}

module _ (floor ceiling : ℕ) (x : BondBid) where
  ineligible_bids_complete :
      (bids : List BondBid)
      → In x bids
      → x.bid_yield_bps < floor
      → In (x, below_floor) (ineligible_bids floor ceiling bids)
  unfolding ineligible_bids
  ineligible_bids_complete [] m h = elim m [ ]
  ineligible_bids_complete (b ∷ bids) (inl e) h = ground arith
  ineligible_bids_complete (b ∷ bids) (inr m) h = ground (arith, ineligible_bids_complete bids m h)

module _ (abbr bond_id : String) (credit : CreditAssessment) (reasoner : AuctionReasoner)
    (bids : List BondBid) (x : BondBid) where
  abbrev asked : AuctionQuestion
  asked = question_of abbr bond_id credit bids

  verdict_of_doubled :
      (b : BondBid)
      → In x bids
      → x.bid_yield_bps < credit.yield_floor_bps
      → (evaluate_bond_auction abbr bond_id credit reasoner bids).winner_fips ≡ some x.bidder_fips
      → (verdict_of abbr bond_id credit reasoner bids b).kind ≡ rejected
  unfolding evaluate_bond_auction verdict_for
  verdict_of_doubled b m low e =
      elim (Option-cases (find (λ y. y.0.bidder_fips == b.bidder_fips) asked.ineligible)) [
        | inl clear ↦ elim (Option-cases (choose reasoner asked).0) [
          | inl missing ↦ absurd (ground arith)
          | inr (w, found) ↦ elim (Bool-cases (b.bidder_fips == w.bidder_fips)) [
            | inl same ↦
                let (y, there) =
                  find_complete (λ (y : BondBid × Reason). y.0.bidder_fips == b.bidder_fips)
                    asked.ineligible (x, below_floor) (ineligible_bids_complete _ _ x bids m low)
                    (ground arith) in
                absurd (ground arith)
            | inr other ↦ ground arith
          ]
        ]
        | inr (y, there) ↦ ground arith
      ]

  -- If the winner of an auction also has a bid below the floor in it, then every verdict of that
  -- auction is a rejection, the winner's own included.
  pub evaluate_bond_auction_doubled :
      In x bids
      → x.bid_yield_bps < credit.yield_floor_bps
      → (evaluate_bond_auction abbr bond_id credit reasoner bids).winner_fips ≡ some x.bidder_fips
      → All
          (λ v. v.kind ≡ rejected)
          (evaluate_bond_auction abbr bond_id credit reasoner bids).per_bidder
  unfolding evaluate_bond_auction
  evaluate_bond_auction_doubled m low e =
      All-map (λ v. v.kind ≡ rejected) (verdict_of abbr bond_id credit reasoner bids) bids
        (All-imp (λ b. In b bids) _ bids (λ b _. verdict_of_doubled b m low e) (All-In_self bids))
