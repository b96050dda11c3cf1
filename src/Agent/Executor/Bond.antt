-- ===== src/Agent/Executor/Bond.antt =====
-- The skill bond-auction of packages/agent/src/a2a/executor.ts: the evaluation and the settlement
-- that the agent hands to its registry, and the answer to a bid once its award has come.
pub mod Awards
pub mod Mints
pub mod Protocol
use federated_reserve.Prelude.{
  ℕ, zero, suc, ◌+◌, ◌-◌, ◌*◌, ◌/◌, ◌≤◌, ◌<◌, ◌≡◌, ◌∙◌, ◌⊎◌, inl, inr, refl, sym, subst, String,
  Option, none, some, List, [], ◌∷◌, ◌++◌, Bool, true, false, ◌||◌, if◌then◌else◌, ltb, leb, ◌==◌,
  nat_eq, string_eq, or_else, is_some, contains, ◌>>=◌, arith, Bool-cases, Option-cases, ltb→lt,
  append-nil, length, All, find,
}
use federated_reserve.Shared.Text.{Text, lit, num, dollars, plain, slice}
use federated_reserve.Prelude.Dict.{lookup}
use federated_reserve.Shared.Credit.{CreditAssessment, assess_credit}
use federated_reserve.Shared.Skills.{
  BondBid, BondAward, AwardKind, awarded, rejected, BondMintSettlementResult,
}
use federated_reserve.Agent.Auction.Evaluate.{BondAuctionEvaluation, evaluate_bond_auction}
use federated_reserve.Agent.Auction.Registry.{
  AuctionState, Registry, bids_of, settle_evaluation, winning_bid, finish,
}
use federated_reserve.Agent.Executor.Events.{
  Payload, Stage, Terms, no_terms, NegotiationRound, Event, Run, TaskState, working, input_required,
  completed, failed, canceled, no_message, text, coalition_response, bond_award, aid_response,
  shock_contribution, proposal, counter, accept, reject, coalition_join, coalition_decline,
  coalition_counter, task, status, finished, ChainCall, emit, send, push, threw, close, fail_task,
  outcome,
}
use federated_reserve.Agent.Executor.Deps.{Deps}
use federated_reserve.Agent.Executor.Chain.{execute_bond_mint}
use federated_reserve.Agent.Executor.Aid.{tx_note, tx_terms}

-- `none` is the error on a state without a persona.
pub assess_own_credit : Deps → Option CreditAssessment
assess_own_credit d = assess_credit d.abbr d.credit_inputs

pub evaluate_bids : Deps → String → List BondBid → Option BondAuctionEvaluation
unfolding assess_own_credit
evaluate_bids d bond_id bids = assess_own_credit d >>= λ credit.
    some (evaluate_bond_auction d.abbr bond_id credit d.auction_reasoner bids)

-- The bid that the settler hands on to the mint.
pub mint_bid : Deps → String → BondBid → BondBid
mint_bid d bond_id w = record {
  issuer_fips = d.fips;
  bidder_fips = w.bidder_fips;
  bond_id = bond_id;
  principal_usd = w.principal_usd;
  bid_yield_bps = w.bid_yield_bps;
  rationale = w.rationale;
}

-- `makeBondMintSettler`
pub settle_bid : Deps → String → BondBid → List ChainCall × Option BondMintSettlementResult
unfolding mint_bid
settle_bid d bond_id w = execute_bond_mint d (mint_bid d bond_id w)

pub winner_calls : Deps → String → Option BondBid → List ChainCall
unfolding settle_bid
winner_calls d bond_id none = []
winner_calls d bond_id (some w) = (settle_bid d bond_id w).0

close_found : Deps → String → Registry → Option AuctionState → List ChainCall × Registry
unfolding evaluate_bids settle_bid winner_calls
close_found d bond_id r none = ([], r)
close_found d bond_id r (some auction) =
    let bids = bids_of auction in
    let evaluation = evaluate_bids d bond_id bids in
    (
      winner_calls d bond_id (winning_bid bids (settle_evaluation bids evaluation)),
      finish bond_id (λ w. (settle_bid d bond_id w).1) evaluation r,
    )

-- The transactions that the close of an auction sends, and the registry after it.
pub close_auction : Deps → String → Registry → List ChainCall × Registry
unfolding close_found
close_auction d bond_id r = close_found d bond_id r (lookup bond_id r.auctions)

abbrev skill_name : String
skill_name = "bond-auction"

abbrev is_awarded : AwardKind → Bool
is_awarded awarded = true
is_awarded rejected = false

award_hash : BondAward → Option String
award_hash award = if is_awarded award.kind then (award.mint >>= λ m. some m.tx_hash) else none

award_summary : BondBid → BondAward → Text
unfolding award_hash
award_summary env award =
    if is_awarded award.kind
    then lit "awarded "
        ∷ lit env.bond_id
        ∷ lit " @ "
        ∷ num env.bid_yield_bps
        ∷ lit "bps"
        ∷ tx_note (award_hash award)
      ++ lit " — " ∷ award.rationale
    else lit "rejected — " ∷ award.rationale

-- `handleBondBid`, with the award that `submitBidAndAwait` came to. The mint that precedes the award
-- is one of the transactions of `close_auction`, which the run of the registry sends.
pub handle_bond_bid : Deps → BondBid → BondAward → Run
unfolding award_hash award_summary
handle_bond_bid d env award = emit (task working no_message) (
    push d.telemetry
      (record {
        skill = skill_name;
        round = 1;
        from_fips = env.bidder_fips;
        to_fips = d.fips;
        stage = proposal;
        summary =
            lit "bid "
            ∷ lit env.bond_id
            ∷ lit ": $"
            ∷ dollars env.principal_usd
            ∷ lit " @ "
            ∷ num env.bid_yield_bps
            ∷ lit "bps — "
            ∷ lit env.rationale
            ∷ [];
        terms = no_terms;
      })
      (push d.telemetry
        (record {
          skill = skill_name;
          round = 2;
          from_fips = d.fips;
          to_fips = env.bidder_fips;
          stage = if is_awarded award.kind then accept else reject;
          summary = award_summary env award;
          terms = tx_terms (award_hash award);
        })
        (close completed (bond_award award) true)))
