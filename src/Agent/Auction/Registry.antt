-- ===== src/Agent/Auction/Registry.antt =====
-- `BondAuctionRegistry` in packages/agent/src/a2a/bond-auction-registry.ts: the bids that wait for
-- an auction to close, and how each is answered.
-- A promise is a ticket, and to resolve it is to log the ticket with its award. The two parts of
-- `runEvaluation`, before and after it awaits the evaluator, are `begin` and `finish`.
pub mod Account
pub mod Live
pub mod Fair
pub mod Winner
mod Tests
use federated_reserve.Prelude.{
  ℕ, ◌+◌, suc, ◌≡◌, String, Option, none, some, List, [], ◌∷◌, ◌++◌, map, Bool, true, false,
  if◌then◌else◌, leb, ◌==◌, nat_eq, string_eq, find, length, ◌>>=◌, Eq,
}
use federated_reserve.Prelude.Dict.{Dict, lookup, insert, erase}
use federated_reserve.Shared.Text.{Text, lit, plain}
use federated_reserve.Shared.Skills.{
  BondBid, BondAward, AwardKind, awarded, rejected, BondMintSettlementResult,
}
use federated_reserve.Agent.Auction.Evaluate.{Verdict, BondAuctionEvaluation}

pub record ParkedBid : Type 0 where
  pub bid : BondBid
  pub ticket : ℕ

-- `timer` says whether a timer is set.
pub record AuctionState : Type 0 where
  pub parked : List ParkedBid
  pub timer : Bool
  pub evaluating : Bool

-- `microtasks` are the queued calls of `runEvaluation`, `resolved` the answers given.
pub record Registry : Type 0 where
  pub auctions : Dict String AuctionState
  pub microtasks : List String
  pub resolved : List (ℕ × BondAward)

abbrev pub empty : Registry
empty = record { auctions = []; microtasks = []; resolved = [] }

abbrev pub fresh : AuctionState
fresh = record { parked = []; timer = false; evaluating = false }

pub opened : Option AuctionState → AuctionState
opened none = fresh
opened (some auction) = auction

pub closed_award : BondBid → BondAward
closed_award bid = record {
  kind = rejected;
  bond_id = bid.bond_id;
  to_fips = bid.bidder_fips;
  yield_bps = bid.bid_yield_bps;
  rationale = plain "auction window already closed before bid was parked";
  mint = none;
}

-- The auction after a bid is parked, and whether `runEvaluation` is queued at once.
pub park : ℕ → ParkedBid → AuctionState → AuctionState × Bool
park max_bids p auction =
    let parked = auction.parked ++ p ∷ [] in
    let full = leb max_bids (length parked) in
    (record auction { parked = parked; timer = if full then false else true }, full)

-- The call while the auction takes bids.
pub submit_open : ℕ → ParkedBid → AuctionState → Registry → Registry
submit_open max_bids p auction r =
    let key = p.bid.bond_id in
    let (next, full) = park max_bids p auction in
    record r {
      auctions = insert key next r.auctions;
      microtasks = if full then r.microtasks ++ key ∷ [] else r.microtasks;
    }

-- `submitBidAndAwait`
pub submit : ℕ → ℕ → BondBid → Registry → Registry
submit max_bids ticket bid r =
    let auction = opened (lookup bid.bond_id r.auctions) in
    if auction.evaluating
    then record r { resolved = r.resolved ++ (ticket, closed_award bid) ∷ [] }
    else submit_open max_bids (record { bid = bid; ticket = ticket }) auction r

-- `runEvaluation` up to its first `await`.
pub begin : String → Registry → Registry
begin key r = elim (lookup key r.auctions) [
  | none ↦ r
  | some auction ↦ if auction.evaluating then r else record r {
    auctions = insert key (record auction { evaluating = true; timer = false }) r.auctions;
  }
]

-- What the evaluator gives; `none` is an evaluator that throws, with every bid rejected. The text
-- is kept without the error's own words.
failed_verdict : BondBid → Verdict
failed_verdict b = record {
  bidder_fips = b.bidder_fips;
  kind = rejected;
  yield_bps = b.bid_yield_bps;
  rationale = plain "evaluator failed";
}

unfoldable pub settle_evaluation :
    List BondBid → Option BondAuctionEvaluation → BondAuctionEvaluation
unfolding failed_verdict
settle_evaluation bids (some evaluation) = evaluation
settle_evaluation bids none = record { winner_fips = none; per_bidder = map failed_verdict bids }

-- The bid that is handed to the settler, if any.
pub winning_bid : List BondBid → BondAuctionEvaluation → Option BondBid
winning_bid bids evaluation =
    evaluation.winner_fips >>= λ fips. find (λ b. b.bidder_fips == fips) bids

pub is_winner : Option ℕ → ℕ → Bool
is_winner none fips = false
is_winner (some w) fips = fips == w

is_awarded : AwardKind → Bool
is_awarded awarded = true
is_awarded rejected = false

-- The answer to one parked bid; the first verdict for a bidder counts.
pub award_for :
    String → BondAuctionEvaluation → Option BondMintSettlementResult → BondBid → BondAward
unfolding is_winner is_awarded
award_for bond_id evaluation settlement bid =
    elim (find (λ v. v.bidder_fips == bid.bidder_fips) evaluation.per_bidder) [
      | none ↦ record {
        kind = rejected;
        bond_id = bond_id;
        to_fips = bid.bidder_fips;
        yield_bps = bid.bid_yield_bps;
        rationale = plain "evaluator did not produce a verdict for this bidder";
        mint = none;
      }
      | some v ↦ record {
        kind = v.kind;
        bond_id = bond_id;
        to_fips = bid.bidder_fips;
        yield_bps = v.yield_bps;
        rationale = v.rationale;
        mint =
            if is_awarded v.kind
            then if is_winner evaluation.winner_fips bid.bidder_fips then settlement else none
            else none;
      }
    ]

abbrev pub bids_of : AuctionState → List BondBid
bids_of auction = map (λ (p : ParkedBid). p.bid) auction.parked

-- The settler as a function; `none` is no settlement, or a settler that throws.
abbrev pub Settler : Type 0
Settler = BondBid → Option BondMintSettlementResult

pub answers : String → Settler → Option BondAuctionEvaluation → AuctionState → List (ℕ × BondAward)
unfolding settle_evaluation winning_bid award_for
answers key settler outcome auction =
    let evaluation = settle_evaluation (bids_of auction) outcome in
    let settlement = winning_bid (bids_of auction) evaluation >>= settler in
    map (λ (p : ParkedBid). (p.ticket, award_for key evaluation settlement p.bid)) auction.parked

-- `runEvaluation` from the evaluator's answer on.
pub finish : String → Settler → Option BondAuctionEvaluation → Registry → Registry
unfolding answers
finish key settler outcome r = elim (lookup key r.auctions) [
  | none ↦ r
  | some auction ↦ record r {
    auctions = erase key r.auctions;
    resolved = r.resolved ++ answers key settler outcome auction;
  }
]

-- What can happen to a registry: a bid arrives, a timer fires, the first queued call runs, or an
-- evaluation that has begun comes to its end. `Runs max_bids tickets r` holds of the registries
-- that the submission of `tickets`, the latest first, can lead to.
pub data Runs (max_bids : ℕ) : List ℕ → Registry → Type 0 where
  started : Runs max_bids [] empty
  submitted :
      {tickets : List ℕ} {r : Registry} (ticket : ℕ) (bid : BondBid)
      → Runs max_bids tickets r
      → Runs max_bids (ticket ∷ tickets) (submit max_bids ticket bid r)
  timer_fired :
      {tickets : List ℕ} {r : Registry} (key : String) (auction : AuctionState)
      → Runs max_bids tickets r
      → lookup key r.auctions ≡ some auction
      → auction.timer ≡ true
      → Runs max_bids tickets (begin key r)
  microtask_ran :
      {tickets : List ℕ} {r : Registry} (key : String) (rest : List String)
      → Runs max_bids tickets r
      → r.microtasks ≡ key ∷ rest
      → Runs max_bids tickets (begin key (record r { microtasks = rest }))
  evaluated :
      {tickets : List ℕ} {r : Registry} (key : String) (auction : AuctionState) (settler : Settler)
      (outcome : Option BondAuctionEvaluation)
      → Runs max_bids tickets r
      → lookup key r.auctions ≡ some auction
      → auction.evaluating ≡ true
      → Runs max_bids tickets (finish key settler outcome r)
