-- ===== src/Agent/Executor/Tests.antt =====
-- Messages to the agent of Texas, which has no model and whose transactions succeed.
mod Close
use federated_reserve.Prelude.{
  arith, ◌++◌, map, ◌≡◌, refl, none, some, [], ◌∷◌, true, false, string_eq,
}
use federated_reserve.Prelude.Int.{pos}
use federated_reserve.Prelude.Dict.{lookup}
use federated_reserve.Shared.BigInt.{given, big_int}
use federated_reserve.Shared.Skills.{
  AssetAmount, SwapProposal, SwapCounter, NegotiateSwapMessage, CoalitionInvite, BondBid, BondAward,
  rejected, AidRequest, success,
}
use federated_reserve.Shared.Text.{plain}
use federated_reserve.Shared.Deployments.{ContractDeployments}
use federated_reserve.Agent.Auction.Registry.{
  submit, empty, Registry, AuctionState, ParkedBid, bids_of,
}
use federated_reserve.Agent.Executor.Events.{outcome}
use federated_reserve.Agent.Executor.Events.Calls.{calls}
use federated_reserve.Agent.Executor.Events.Orderly.{orderly}
use federated_reserve.Agent.Executor.Deps.{Deps, DataPart, Context, SwapExecutor}
use federated_reserve.Agent.Executor.Chain.{
  execute_bond_mint, execute_aid_transfer, execute_responder_leg,
}
use federated_reserve.Agent.Executor.Chain.Bounds.{IsBoundedMint, execute_bond_mint-IsBoundedMint}
use federated_reserve.Agent.Executor.Chain.AidBounds.{
  IsBoundedTransfer, execute_aid_transfer-IsBoundedTransfer,
}
use federated_reserve.Agent.Executor.Chain.LegBounds.{
  IsBoundedLeg, execute_responder_leg-IsBoundedLeg,
}
use federated_reserve.Agent.Swap.Decide.{ask_on_proposal, decide_on_proposal}
use federated_reserve.Agent.Swap.Decide.Haircut.{IsReduced, decide_on_proposal-IsReduced}
use federated_reserve.Agent.Swap.Handle.{handle_negotiate_swap}
use federated_reserve.Agent.Swap.Handle.Protocol.{IsFinal, outcome-handle_negotiate_swap-IsFinal}
use federated_reserve.Agent.Swap.Handle.Spending.{Settles, deal_of, handle_negotiate_swap-Settles}
use federated_reserve.Agent.Executor.Coalition.{ask_coalition_reasoner, invite_response}
use federated_reserve.Agent.Executor.Coalition.Answers.{IsMeasured, invite_response-IsMeasured}
use federated_reserve.Agent.Executor.Aid.{aid_response_to, handle_aid_request}
use federated_reserve.Agent.Executor.Aid.Protocol.{
  SpendsOffer, handle_aid_request-SpendsOffer, IsPrudent, aid_response_to-IsPrudent,
}
use federated_reserve.Agent.Executor.Bond.{close_auction}
use federated_reserve.Agent.Executor.Bond.Awards.{IsPaidOut, winner_of, close_auction-IsPaidOut}
use federated_reserve.Agent.Executor.Bond.Mints.{ClosesBacked, close_auction-ClosesBacked}
use federated_reserve.Agent.Executor.Execute.{execute}
use federated_reserve.Agent.Executor.Execute.Protocol.{orderly-execute}

abbrev wallet : SwapExecutor
wallet = record {
  address = "0xtx";
  mint_bond = λ bond to n. some (record { tx_hash = "0xmint"; block_number = 1; status = success });
  pay_issuer =
      λ token to n. some (record { tx_hash = "0xpaid"; block_number = 2; status = success });
  swap = λ from to n. none;
}

abbrev deployed : ContractDeployments
deployed = record {
  usdc_address = "0xusdc";
  usdc_decimals = 6;
  state_tokens = ("CA", record { address = "0xca"; fips = 6; symbol = "CAT"; decimals = 18 }) ∷ [];
  bonds = some (
      (
        "TX-2030",
        record {
          bond_id = "TX-2030";
          address = "0xbond";
          issuer_fips = 48;
          coupon_bps = 400;
          principal_usdc_base = 5000000;
          symbol = "TX30";
        },
      )
      ∷ []);
}

abbrev texas : Deps
texas = record {
  fips = 48;
  abbr = "TX";
  telemetry = true;
  reasoner = none;
  auction_reasoner = none;
  swap_executor = some wallet;
  deployments = some deployed;
  env = λ name. some "0xpeer";
  credit_inputs = record {
    reserve_ratio = 3000;
    unemployment_pct = some 400;
    personal_income_usd = some 70000;
    gdp_growth_pct = none;
    poverty_rate_pct = none;
    shock_pressure = none;
  };
  reserve_ratio = 3000;
}

abbrev usdc : AssetAmount
usdc = record { asset = "USDC"; amount = given "1000000" }

abbrev token : AssetAmount
token = record { asset = "CA"; amount = given "2000000" }

abbrev an_offer : SwapProposal
an_offer = record { initiator_fips = 6; give = usdc; receive = token; rationale = "trade" }

abbrev a_counter : SwapCounter
a_counter = record { responder_fips = 48; give = usdc; receive = token; rationale = plain "less" }

abbrev swap_part : NegotiateSwapMessage → DataPart
swap_part m = record {
  skill_is_string = false;
  as_skill = none;
  as_swap = some m;
  error_message = "";
}

-- A counter on a task that began with a proposal.
abbrev answered : Context
answered = record {
  message = some (swap_part (NegotiateSwapMessage.counter a_counter));
  task = some (some (some (swap_part (NegotiateSwapMessage.proposal an_offer)) ∷ []));
}

abbrev invite : CoalitionInvite
invite = record {
  initiator_fips = 22;
  coalition_tag = "gulf-disaster-pool";
  topic = "storms";
  proposed_contribution_usd = 3000000000000;
  duration_days = some 30;
}

abbrev a_bid : BondBid
a_bid = record {
  issuer_fips = 48;
  bidder_fips = 6;
  bond_id = "TX-2030";
  principal_usd = 3000000;
  bid_yield_bps = 400;
  rationale = "";
}

abbrev no_award : BondBid → BondAward
no_award b = record {
  kind = rejected;
  bond_id = b.bond_id;
  to_fips = b.bidder_fips;
  yield_bps = b.bid_yield_bps;
  rationale = [];
  mint = none;
}

abbrev plea : AidRequest
plea = record {
  requester_fips = 22;
  reason = "flood";
  amount_usd = 8500000;
  repayment_terms = "none";
}

orderly-execute_example : orderly (execute texas no_award answered) ≡ true
orderly-execute_example = orderly-execute texas no_award answered

handle_negotiate_swap-Settles_example :
    let part = swap_part (NegotiateSwapMessage.counter a_counter) in
    Settles texas
      (deal_of answered part)
      (calls (handle_negotiate_swap texas answered part))
      (outcome (handle_negotiate_swap texas answered part))
handle_negotiate_swap-Settles_example =
    handle_negotiate_swap-Settles texas answered
      (swap_part (NegotiateSwapMessage.counter a_counter))

outcome-handle_negotiate_swap-IsFinal_example : IsFinal (
    outcome
      (handle_negotiate_swap texas answered (swap_part (NegotiateSwapMessage.counter a_counter))))
outcome-handle_negotiate_swap-IsFinal_example =
    outcome-handle_negotiate_swap-IsFinal texas answered
      (swap_part (NegotiateSwapMessage.counter a_counter))
      (some (some (swap_part (NegotiateSwapMessage.proposal an_offer)) ∷ [])) refl

asked_none : ask_on_proposal texas an_offer ≡ none
unfolding ask_on_proposal
asked_none = refl

two_million : big_int token.amount ≡ some (pos 2000000)
unfolding big_int
two_million = refl

decide_on_proposal-IsReduced_example :
    IsReduced 2000000 an_offer (decide_on_proposal texas an_offer)
decide_on_proposal-IsReduced_example =
    decide_on_proposal-IsReduced texas an_offer 2000000 asked_none two_million

execute_bond_mint-IsBoundedMint_example : IsBoundedMint texas a_bid (execute_bond_mint texas a_bid)
execute_bond_mint-IsBoundedMint_example = execute_bond_mint-IsBoundedMint texas a_bid

execute_aid_transfer-IsBoundedTransfer_example :
    IsBoundedTransfer texas 22 2500000 (execute_aid_transfer texas 22 2500000)
execute_aid_transfer-IsBoundedTransfer_example =
    execute_aid_transfer-IsBoundedTransfer texas 22 2500000

execute_responder_leg-IsBoundedLeg_example :
    IsBoundedLeg texas 6 usdc token (execute_responder_leg texas 6 usdc token)
execute_responder_leg-IsBoundedLeg_example = execute_responder_leg-IsBoundedLeg texas 6 usdc token

invite_asked_none : ask_coalition_reasoner texas invite true ≡ none
unfolding ask_coalition_reasoner
invite_asked_none = refl

invite_response-IsMeasured_example :
    IsMeasured invite (invite_response texas invite true) (invite_response texas invite true).kind
invite_response-IsMeasured_example = invite_response-IsMeasured texas invite true invite_asked_none

handle_aid_request-SpendsOffer_example :
    SpendsOffer texas plea (aid_response_to texas plea) (calls (handle_aid_request texas plea))
handle_aid_request-SpendsOffer_example = handle_aid_request-SpendsOffer texas plea

aid_response_to-IsPrudent_example :
    IsPrudent texas plea (aid_response_to texas plea) (aid_response_to texas plea).kind
aid_response_to-IsPrudent_example = aid_response_to-IsPrudent texas plea refl
