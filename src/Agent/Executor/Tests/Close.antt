-- ===== src/Agent/Executor/Tests/Close.antt =====
-- Two auctions that the agent of Texas closes.
use federated_reserve.Prelude.{arith, ◌++◌, map, ◌≡◌, refl, [], ◌∷◌, true, false, string_eq}
use federated_reserve.Prelude.Dict.{lookup}
use federated_reserve.Shared.Skills.{BondBid, BondAward}
use federated_reserve.Agent.Auction.Registry.{
  submit, empty, Registry, AuctionState, ParkedBid, bids_of,
}
use federated_reserve.Agent.Executor.Bond.{close_auction}
use federated_reserve.Agent.Executor.Bond.Awards.{IsPaidOut, winner_of, close_auction-IsPaidOut}
use federated_reserve.Agent.Executor.Bond.Mints.{ClosesBacked, close_auction-ClosesBacked}
use federated_reserve.Agent.Executor.Tests.{texas, a_bid}

close_auction-ClosesBacked_example :
    let r = submit 5 0 a_bid empty in
    ClosesBacked texas "TX-2030" (lookup "TX-2030" r.auctions) (close_auction texas "TX-2030" r).0
close_auction-ClosesBacked_example =
    close_auction-ClosesBacked texas "TX-2030" (submit 5 0 a_bid empty)

-- Two bids wait; the second asks for the lower yield.
abbrev parked_bids : AuctionState
parked_bids = record {
  parked =
      record { bid = record a_bid { bidder_fips = 22; bid_yield_bps = 450 }; ticket = 0 }
      ∷ record { bid = a_bid; ticket = 1 }
      ∷ [];
  timer = false;
  evaluating = true;
}

abbrev closing : Registry
closing = record { auctions = ("TX-2030", parked_bids) ∷ []; microtasks = []; resolved = [] }

close_auction-IsPaidOut_example :
    (answer : BondBid → BondAward) × ((close_auction texas "TX-2030" closing).1.resolved
      ≡ closing.resolved ++ map (λ (p : ParkedBid). (p.ticket, answer p.bid)) parked_bids.parked)
    × IsPaidOut texas "TX-2030"
        (bids_of parked_bids)
        (close_auction texas "TX-2030" closing).0
        answer
        (winner_of texas "TX-2030" (bids_of parked_bids))
close_auction-IsPaidOut_example =
    close_auction-IsPaidOut texas "TX-2030" closing parked_bids refl
      ((λ e. omega arith, tt), (tt, tt))
