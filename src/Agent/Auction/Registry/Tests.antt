-- ===== src/Agent/Auction/Registry/Tests.antt =====
-- Two bids that wait for an auction, and one that comes while it is being evaluated.
use federated_reserve.Prelude.{
  ℕ, ◌≡◌, ◌⊎◌, refl, Option, none, some, [], ◌∷◌, map, true, false, arith, All, In, string_eq,
}
use federated_reserve.Prelude.Dict.{lookup}
use federated_reserve.Shared.Text.{plain}
use federated_reserve.Shared.Credit.{CreditAssessment, a_plus}
use federated_reserve.Shared.Skills.{BondBid, BondAward, BondMintSettlementResult}
use federated_reserve.Agent.Auction.Evaluate.{evaluate_bond_auction}
use federated_reserve.Agent.Auction.Evaluate.Verdicts.{IsDistinct}
use federated_reserve.Agent.Auction.Registry.{
  ParkedBid, AuctionState, Registry, Settler, empty, opened, submit_open, park, submit, begin,
  finish, answers, winning_bid, bids_of, Runs, started, submitted, timer_fired, evaluated,
}
use federated_reserve.Agent.Auction.Registry.Account.{IsAccounted, Runs-IsAccounted}
use federated_reserve.Agent.Auction.Registry.Live.{Runs-due}
use federated_reserve.Agent.Auction.Registry.Fair.{IsFair, answers-IsFair}
use federated_reserve.Agent.Auction.Registry.Winner.{IsHanded}

abbrev credit : CreditAssessment
credit = record {
  rating = a_plus;
  score = 70;
  yield_floor_bps = 300;
  yield_ceiling_bps = 500;
  summary = plain "";
}

abbrev bid : ℕ → ℕ → BondBid
bid fips bps = record {
  issuer_fips = 48;
  bidder_fips = fips;
  bond_id = "TX-2030";
  principal_usd = 1000000;
  bid_yield_bps = bps;
  rationale = "";
}

abbrev two_parked : AuctionState
two_parked = record {
  parked = record { bid = bid 6 450; ticket = 0 } ∷ record { bid = bid 12 400; ticket = 1 } ∷ [];
  timer = true;
  evaluating = false;
}

abbrev two_submitted : Registry
two_submitted = submit 5 1 (bid 12 400) (submit 5 0 (bid 6 450) empty)

two-Runs : Runs 5 (1 ∷ 0 ∷ []) two_submitted
two-Runs = submitted 1 (bid 12 400) (submitted 0 (bid 6 450) started)

two_found : lookup "TX-2030" two_submitted.auctions ≡ some two_parked
unfolding submit opened submit_open park
two_found = refl

abbrev pays : Settler
pays b = some (record {
  bond_address = "0xbond";
  principal_usdc_base = b.principal_usd;
  tx_hash = "0xmint";
  block_number = 7;
})

-- The auction closes while a third bid arrives, and then all three have been answered.
late-Runs :
    Runs 5
      (2 ∷ 1 ∷ 0 ∷ [])
      (finish "TX-2030" pays none (submit 5 2 (bid 36 350) (begin "TX-2030" two_submitted)))
unfolding submit begin opened submit_open park
late-Runs =
    evaluated "TX-2030" (record two_parked { timer = false; evaluating = true }) pays none
      (submitted 2 (bid 36 350) (timer_fired "TX-2030" two_parked two-Runs two_found refl)) refl
      refl

Runs-IsAccounted_example :
    IsAccounted
      (2 ∷ 1 ∷ 0 ∷ [])
      (finish "TX-2030" pays none (submit 5 2 (bid 36 350) (begin "TX-2030" two_submitted)))
Runs-IsAccounted_example = Runs-IsAccounted late-Runs

Runs-due_example : (two_parked.timer ≡ true) ⊎ In "TX-2030" two_submitted.microtasks
Runs-due_example = Runs-due two-Runs "TX-2030" two_parked two_found refl

two_parked-IsDistinct : IsDistinct (bids_of two_parked)
two_parked-IsDistinct = ((λ e. omega arith, tt), (tt, tt))

answers-IsFair_example :
    let e = evaluate_bond_auction "TX" "TX-2030" credit none (bids_of two_parked) in
    (answer : BondBid → BondAward) × (settlement : Option BondMintSettlementResult) × (answers
        "TX-2030" pays
        (some e)
        two_parked
      ≡ map (λ (p : ParkedBid). (p.ticket, answer p.bid)) two_parked.parked)
    × All (λ b. IsFair e.winner_fips settlement b (answer b)) (bids_of two_parked)
    × IsHanded credit
        (bids_of two_parked)
        pays
        (winning_bid (bids_of two_parked) e)
        settlement
        e.winner_fips
answers-IsFair_example =
    answers-IsFair "TX" "TX-2030" credit none pays two_parked two_parked-IsDistinct
