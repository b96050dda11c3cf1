-- ===== src/Agent/Executor/Bond/Mints.antt =====
-- What the close of an auction mints.
use federated_reserve.Prelude.{
  ◌≤◌, ◌≡◌, refl, String, Option, none, some, List, [], nat_eq, string_eq, ◌>>=◌, arith, length,
  All,
}
use federated_reserve.Prelude.Dict.{lookup}
use federated_reserve.Shared.Credit.{CreditAssessment}
use federated_reserve.Shared.Skills.{BondBid}
use federated_reserve.Prelude.{In, All-imp}
use federated_reserve.Agent.Auction.Evaluate.{BondAuctionEvaluation, evaluate_bond_auction}
use federated_reserve.Agent.Auction.Evaluate.Guardrail.{IsCandidate, evaluate_bond_auction-IsWithin}
use federated_reserve.Agent.Auction.Registry.{
  AuctionState, Registry, bids_of, settle_evaluation, winning_bid,
}
use federated_reserve.Agent.Auction.Registry.Winner.{winning_bid_sound}
use federated_reserve.Agent.Executor.Events.{ChainCall}
use federated_reserve.Agent.Executor.Deps.{Deps}
use federated_reserve.Agent.Executor.Chain.Bounds.{
  IsBoundedMint, MayMint, execute_bond_mint-IsBoundedMint,
}
use federated_reserve.Agent.Executor.Bond.{
  assess_own_credit, evaluate_bids, mint_bid, settle_bid, winner_calls, close_found, close_auction,
}

-- A mint on behalf of a bid of the auction, whose bidder has a bid inside the issuer's guardrail.
pub BacksBid : Deps → String → List BondBid → ChainCall → Type 0
BacksBid d bond_id bids c =
    (b : BondBid) × (w : BondBid) × (credit : CreditAssessment) × In b bids
    × MayMint d (mint_bid d bond_id b) c
    × (assess_own_credit d ≡ some credit)
    × IsCandidate credit bids w
    × (w.bidder_fips ≡ b.bidder_fips)

pub IsBackedClose : Deps → String → List BondBid → List ChainCall → Type 0
IsBackedClose d bond_id bids cs = (length cs ≤ 1) × All (BacksBid d bond_id bids) cs

module _ (d : Deps) (bond_id : String) (bids : List BondBid) where
  evaluation_with : Option CreditAssessment → BondAuctionEvaluation
  evaluation_with credit =
      settle_evaluation bids
        (credit >>= λ x. some (evaluate_bond_auction d.abbr bond_id x d.auction_reasoner bids))

  winner_calls-IsBackedClose :
      (credit : Option CreditAssessment) (w : Option BondBid)
      → assess_own_credit d ≡ credit
      → winning_bid bids (evaluation_with credit) ≡ w
      → IsBackedClose d bond_id bids (winner_calls d bond_id w)
  unfolding winner_calls IsBackedClose BacksBid settle_bid evaluation_with settle_evaluation
      IsBoundedMint
  winner_calls-IsBackedClose credit none e h = (omega arith, tt)
  winner_calls-IsBackedClose none (some b) e h =
      let won : (evaluation_with none).winner_fips ≡ some b.bidder_fips =
        (winning_bid_sound bids (evaluation_with none) b h).1 in
      absurd (ground arith)
  winner_calls-IsBackedClose (some credit) (some b) e h =
      let (m, won) = winning_bid_sound bids (evaluation_with (some credit)) b h in
      let (w, candidate, same) =
        evaluate_bond_auction-IsWithin d.abbr bond_id credit d.auction_reasoner bids b.bidder_fips
          won in
      let (one, each, _) = execute_bond_mint-IsBoundedMint d (mint_bid d bond_id b) in
      (one, All-imp _ _ _ (λ c may. (b, w, credit, m, may, e, candidate, same)) each)

-- The close of an auction, from the auction that is found.
pub ClosesBacked : Deps → String → Option AuctionState → List ChainCall → Type 0
ClosesBacked d bond_id none cs = cs ≡ []
ClosesBacked d bond_id (some auction) cs = IsBackedClose d bond_id (bids_of auction) cs

close_found-ClosesBacked :
    (d : Deps) (bond_id : String) (r : Registry) (found : Option AuctionState)
    → ClosesBacked d bond_id found (close_found d bond_id r found).0
unfolding close_found ClosesBacked evaluate_bids evaluation_with
close_found-ClosesBacked d bond_id r none = refl
close_found-ClosesBacked d bond_id r (some auction) =
    winner_calls-IsBackedClose d bond_id (bids_of auction) (assess_own_credit d) _ refl refl

-- Whatever the model and the chain answer, the close of an auction mints at most once: a listed
-- bond of this state, for at most the principal on offer and that of a bid of the auction, to the
-- wallet of that bid's bidder, who has a bid in the auction between the floor and the ceiling of
-- the state's credit assessment. An auction that is not open mints nothing.
pub close_auction-ClosesBacked :
    (d : Deps) (bond_id : String) (r : Registry)
    → ClosesBacked d bond_id (lookup bond_id r.auctions) (close_auction d bond_id r).0
unfolding close_auction
close_auction-ClosesBacked d bond_id r =
    close_found-ClosesBacked d bond_id r (lookup bond_id r.auctions)
