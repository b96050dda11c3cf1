-- ===== src/Agent/Auction/Registry/Winner.antt =====
-- The bid that an auction hands to its settler.
use federated_reserve.Prelude.{
  ℕ, ◌≡◌, refl, sym, ap, ◌∙◌, subst, String, Option, none, some, List, arith, In, find, find-In,
  find_sound, find_complete, some-injective, Option-cases, inl, inr, ◌==◌, nat_eq, ◌>>=◌,
}
use federated_reserve.Shared.Credit.{CreditAssessment}
use federated_reserve.Shared.Skills.{BondBid, BondMintSettlementResult}
use federated_reserve.Agent.Auction.Evaluate.{
  AuctionReasoner, BondAuctionEvaluation, evaluate_bond_auction,
}
use federated_reserve.Agent.Auction.Evaluate.Guardrail.{IsCandidate, evaluate_bond_auction-IsWithin}
use federated_reserve.Agent.Auction.Evaluate.Verdicts.{IsDistinct, IsDistinct-injective}
use federated_reserve.Agent.Auction.Registry.{AuctionState, Settler, bids_of, winning_bid}

pub winning_bid_sound :
    (bids : List BondBid) (e : BondAuctionEvaluation) (w : BondBid)
    → winning_bid bids e ≡ some w
    → In w bids × (e.winner_fips ≡ some w.bidder_fips)
unfolding winning_bid
winning_bid_sound bids e w h = elim (Option-cases e.winner_fips) [
  | inl missing ↦ absurd (ground arith)
  | inr (fips, won) ↦
      let found : find (λ (b : BondBid). b.bidder_fips == fips) bids ≡ some w = ground arith in
      (
        find-In _ bids w found,
        ground (arith, find_sound (λ (b : BondBid). b.bidder_fips == fips) bids w found),
      )
]

-- Every bidder has a bid that can be found.
winning_bid_complete :
    (bids : List BondBid) (e : BondAuctionEvaluation) (w : BondBid)
    → In w bids
    → e.winner_fips ≡ some w.bidder_fips
    → (c : BondBid) × (winning_bid bids e ≡ some c)
unfolding winning_bid
winning_bid_complete bids e w m won =
    let (c, found) =
      find_complete (λ (b : BondBid). b.bidder_fips == w.bidder_fips) bids w m (ground arith) in
    (c, rw won found)

-- Where somebody wins, the settler is handed a bid of the winner in the auction, which lies inside
-- the guardrail, and what it gives is the settlement; where nobody wins, it is handed none and
-- there is no settlement.
unfoldable pub IsHanded :
    CreditAssessment
    → List BondBid
    → Settler
    → Option BondBid
    → Option BondMintSettlementResult
    → Option ℕ
    → Type 0
IsHanded credit bids settler chosen settlement none = (chosen ≡ none) × (settlement ≡ none)
IsHanded credit bids settler chosen settlement (some fips) =
    (w : BondBid) × (chosen ≡ some w)
    × IsCandidate credit bids w
    × (w.bidder_fips ≡ fips)
    × (settlement ≡ settler w)

pub no_winning_bid :
    (bids : List BondBid) (e : BondAuctionEvaluation)
    → e.winner_fips ≡ none
    → winning_bid bids e ≡ none
unfolding winning_bid
no_winning_bid bids e lost = rw lost refl

module _ (abbr bond_id : String) (credit : CreditAssessment) (reasoner : AuctionReasoner)
    (settler : Settler) (auction : AuctionState) where
  abbrev evaluation : BondAuctionEvaluation
  evaluation = evaluate_bond_auction abbr bond_id credit reasoner (bids_of auction)

  abbrev chosen : Option BondBid
  chosen = winning_bid (bids_of auction) evaluation

  -- The winner's bid is found, and with one bid per bidder it is the one inside the guardrail.
  handed :
      IsDistinct (bids_of auction)
      → (fips : ℕ) → evaluation.winner_fips ≡ some fips
      → IsHanded credit (bids_of auction) settler chosen (chosen >>= settler) (some fips)
  unfolding IsHanded
  handed d fips won =
      let bids : List BondBid = bids_of auction in
      let (w, candidate, own) =
        evaluate_bond_auction-IsWithin abbr bond_id credit reasoner bids fips won in
      let (c, found) =
        winning_bid_complete bids evaluation w candidate.0 (won ∙ ap some (sym own)) in
      let (m, won_too) = winning_bid_sound bids evaluation c found in
      let same : c.bidder_fips ≡ fips = some-injective _ _ (sym won_too ∙ won) in
      (
        c,
        found,
        subst (IsCandidate credit bids)
            (IsDistinct-injective bids w c d candidate.0 m (own ∙ sym same)) candidate,
        same,
        ap (λ (o : Option BondBid). o >>= settler) found,
      )

  pub winning_bid-IsHanded :
      IsDistinct (bids_of auction)
      → IsHanded credit (bids_of auction) settler chosen (chosen >>= settler) evaluation.winner_fips
  unfolding IsHanded
  winning_bid-IsHanded d = elim (Option-cases evaluation.winner_fips) [
    | inl lost ↦
        let missing = no_winning_bid (bids_of auction) evaluation lost in
        subst (IsHanded credit (bids_of auction) settler chosen (chosen >>= settler)) (sym lost)
          (missing, ap (λ (o : Option BondBid). o >>= settler) missing)
    | inr (fips, won) ↦
        subst (IsHanded credit (bids_of auction) settler chosen (chosen >>= settler)) (sym won)
          (handed d fips won)
  ]
