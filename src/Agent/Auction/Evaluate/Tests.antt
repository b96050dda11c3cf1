-- ===== src/Agent/Auction/Evaluate/Tests.antt =====
-- An auction with three bids, one of them above the ceiling, and one in which a bidder has two.
use federated_reserve.Prelude.{
  ℕ, ◌≡◌, ◌⊎◌, inl, refl, none, some, List, [], ◌∷◌, map, true, arith, All,
}
use federated_reserve.Prelude.Sort.{sort}
use federated_reserve.Shared.Text.{plain}
use federated_reserve.Shared.Credit.{CreditAssessment, a_plus}
use federated_reserve.Shared.Skills.{BondBid, rejected}
use federated_reserve.Agent.Auction.Evaluate.{
  AuctionReasoner, Verdict, evaluate_bond_auction, eligible_bids, apply_decision, cheaper,
}
use federated_reserve.Agent.Auction.Evaluate.Guardrail.{
  IsWithin, IsCandidate, evaluate_bond_auction-IsWithin,
}
use federated_reserve.Agent.Auction.Evaluate.Best.{IsBetter, evaluate_bond_auction-best}
use federated_reserve.Agent.Auction.Evaluate.Verdicts.{
  IsDistinct, IsTrue, evaluate_bond_auction-IsTrue,
}
use federated_reserve.Agent.Auction.Evaluate.Doubled.{evaluate_bond_auction_doubled}

abbrev credit : CreditAssessment
credit = record {
  rating = a_plus;
  score = 70;
  yield_floor_bps = 300;
  yield_ceiling_bps = 500;
  summary = plain "";
}

abbrev bid : ℕ → ℕ → BondBid
bid fips bps = record {
  issuer_fips = 48;
  bidder_fips = fips;
  bond_id = "TX-2030";
  principal_usd = 1000000;
  bid_yield_bps = bps;
  rationale = "";
}

abbrev three_bids : List BondBid
three_bids = bid 6 450 ∷ bid 12 400 ∷ bid 36 900 ∷ []

-- A model that names the first bidder.
abbrev loyal : AuctionReasoner
loyal = some (λ q. some (record { award = true; winner_fips = some 6; rationale = "" }))

abbrev two_of_one : List BondBid
two_of_one = bid 6 100 ∷ bid 6 400 ∷ []

loyal_winner : (evaluate_bond_auction "TX" "TX-2030" credit loyal three_bids).winner_fips ≡ some 6
unfolding evaluate_bond_auction eligible_bids apply_decision cheaper sort
loyal_winner = refl

evaluate_bond_auction-IsWithin_example :
    (w : BondBid) × IsCandidate credit three_bids w × (w.bidder_fips ≡ 6)
evaluate_bond_auction-IsWithin_example =
    evaluate_bond_auction-IsWithin "TX" "TX-2030" credit loyal three_bids 6 loyal_winner

evaluate_bond_auction-best_example :
    let e = evaluate_bond_auction "TX" "TX-2030" credit none three_bids in
    let inside = IsWithin credit.yield_floor_bps credit.yield_ceiling_bps in
    ((e.winner_fips ≡ none) × All (λ b. ¬ inside b) three_bids)
    ⊎ ((w : BondBid) × (e.winner_fips ≡ some w.bidder_fips)
        × IsCandidate credit three_bids w
        × All (λ b. (¬ inside b) ⊎ IsBetter w b) three_bids)
evaluate_bond_auction-best_example = evaluate_bond_auction-best "TX" "TX-2030" credit three_bids

three_bids-IsDistinct : IsDistinct three_bids
three_bids-IsDistinct =
    ((λ e. omega arith, (λ e. omega arith, tt)), ((λ e. omega arith, tt), (tt, tt)))

evaluate_bond_auction-IsTrue_example :
    let e = evaluate_bond_auction "TX" "TX-2030" credit loyal three_bids in
    (v : BondBid → Verdict) × (e.per_bidder ≡ map v three_bids)
    × All (λ b. IsTrue e.winner_fips b (v b)) three_bids
evaluate_bond_auction-IsTrue_example =
    evaluate_bond_auction-IsTrue "TX" "TX-2030" credit loyal three_bids three_bids-IsDistinct

doubled_winner : (evaluate_bond_auction "TX" "TX-2030" credit none two_of_one).winner_fips ≡ some 6
unfolding evaluate_bond_auction eligible_bids apply_decision cheaper sort
doubled_winner = refl

evaluate_bond_auction_doubled_example :
    All
      (λ v. v.kind ≡ rejected)
      (evaluate_bond_auction "TX" "TX-2030" credit none two_of_one).per_bidder
evaluate_bond_auction_doubled_example =
    evaluate_bond_auction_doubled "TX" "TX-2030" credit none two_of_one (bid 6 100) (inl refl)
      (omega arith) doubled_winner
