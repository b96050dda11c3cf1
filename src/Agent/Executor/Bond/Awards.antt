-- ===== src/Agent/Executor/Bond/Awards.antt =====
-- The awards of an auction that closes, against the transactions that its close sends.
use federated_reserve.Prelude.{
  ℕ, ◌≡◌, ◌∙◌, refl, sym, ap, subst, inl, inr, String, Option, none, some, List, [], ◌++◌, map,
  nat_eq, string_eq, ◌>>=◌, if◌then◌else◌, All, In, All-imp, Option-cases, Bool-cases,
}
use federated_reserve.Prelude.Dict.{lookup}
use federated_reserve.Shared.Credit.{CreditAssessment, assess_credit}
use federated_reserve.Shared.Skills.{BondBid, BondAward, BondMintSettlementResult}
use federated_reserve.Agent.Auction.Evaluate.{BondAuctionEvaluation, evaluate_bond_auction}
use federated_reserve.Agent.Auction.Evaluate.Verdicts.{IsDistinct}
use federated_reserve.Agent.Auction.Registry.{
  ParkedBid, AuctionState, Registry, bids_of, settle_evaluation, winning_bid, is_winner, answers,
}
use federated_reserve.Agent.Auction.Registry.Live.{finish_present}
use federated_reserve.Agent.Auction.Registry.Fair.{answers-IsFair, answers-no_winner}
use federated_reserve.Agent.Auction.Registry.Winner.{IsHanded, no_winning_bid}
use federated_reserve.Agent.Executor.Events.{ChainCall}
use federated_reserve.Agent.Executor.Deps.{Deps}
use federated_reserve.Agent.Executor.Chain.{execute_bond_mint}
use federated_reserve.Agent.Executor.Chain.Bounds.{
  ReportsMint, IsBoundedMint, execute_bond_mint-IsBoundedMint,
}
use federated_reserve.Agent.Executor.Bond.{
  assess_own_credit, evaluate_bids, mint_bid, settle_bid, winner_calls, close_found, close_auction,
}

-- Whom the evaluation lets win under the state's credit assessment; nobody where there is none.
pub winner_under : Deps → String → List BondBid → Option CreditAssessment → Option ℕ
winner_under d bond_id bids none = none
winner_under d bond_id bids (some credit) =
    (evaluate_bond_auction d.abbr bond_id credit d.auction_reasoner bids).winner_fips

pub winner_of : Deps → String → List BondBid → Option ℕ
unfolding winner_under
winner_of d bond_id bids = winner_under d bond_id bids (assess_credit d.abbr d.credit_inputs)

-- The mint of this state's bond for a bid: what is sent, and what it gives.
pub mint_for : Deps → String → BondBid → List ChainCall × Option BondMintSettlementResult
mint_for d bond_id w = execute_bond_mint d (record w { issuer_fips = d.fips; bond_id = bond_id })

-- Where nobody wins, nothing is sent and no answer carries a mint. Where somebody wins, what is sent
-- is the mint for a bid of the winner, the answers to the winner and to nobody else carry what
-- it gave, and a mint that an answer carries is the one transaction that was sent.
pub IsPaidOut :
    Deps → String → List BondBid → List ChainCall → (BondBid → BondAward) → Option ℕ → Type 0
IsPaidOut d bond_id bids calls answer none = (calls ≡ []) × All (λ b. (answer b).mint ≡ none) bids
IsPaidOut d bond_id bids calls answer (some fips) =
    (w : BondBid) × In w bids
    × (w.bidder_fips ≡ fips)
    × (calls ≡ (mint_for d bond_id w).0)
    × All
        (λ b.
          ((answer b).mint
            ≡ (if is_winner (some fips) b.bidder_fips then (mint_for d bond_id w).1 else none))
          × ReportsMint (answer b).mint calls)
        bids

module _ (d : Deps) (bond_id : String) (auction : AuctionState) where
  abbrev bids : List BondBid
  bids = bids_of auction

  abbrev outcome_with : Option CreditAssessment → Option BondAuctionEvaluation
  outcome_with credit =
      credit >>= λ x. some (evaluate_bond_auction d.abbr bond_id x d.auction_reasoner bids)

  abbrev sent_with : Option CreditAssessment → List ChainCall
  sent_with credit =
      winner_calls d bond_id (winning_bid bids (settle_evaluation bids (outcome_with credit)))

  -- What is to be shown, for a winner.
  abbrev PaysOut : Option CreditAssessment → Option ℕ → Type 0
  PaysOut credit winner =
      (answer : BondBid → BondAward) × (answers bond_id (λ w. (settle_bid d bond_id w).1)
          (outcome_with credit) auction
        ≡ map (λ (p : ParkedBid). (p.ticket, answer p.bid)) auction.parked)
      × IsPaidOut d bond_id bids (sent_with credit) answer winner

  pays_nobody :
      (credit : Option CreditAssessment)
      → (settle_evaluation bids (outcome_with credit)).winner_fips ≡ none
      → PaysOut credit none
  unfolding IsPaidOut winner_calls
  pays_nobody credit lost =
      let (answer, same, empty) = answers-no_winner bond_id _ (outcome_with credit) auction lost in
      (
        answer,
        same,
        (
          ap (winner_calls d bond_id)
              (no_winning_bid bids (settle_evaluation bids (outcome_with credit)) lost),
          empty,
        ),
      )

  module _ (w : BondBid) (fips : ℕ) where
    -- One answer, from what it carries.
    reports :
        (b : BondBid) (a : BondAward)
        → a.mint
          ≡ (if is_winner (some fips) b.bidder_fips then (settle_bid d bond_id w).1 else none)
        → ReportsMint a.mint (settle_bid d bond_id w).0
    unfolding ReportsMint settle_bid IsBoundedMint
    reports b a e = elim (Bool-cases (is_winner (some fips) b.bidder_fips)) [
      | inl won ↦
          let (_, _, said) = execute_bond_mint-IsBoundedMint d (mint_bid d bond_id w) in
          rw (e, won) said
      | inr lost ↦ rw (e, lost) tt
    ]

  pays_winner :
      IsDistinct bids
      → (x : CreditAssessment) (fips : ℕ)
      → (settle_evaluation bids (outcome_with (some x))).winner_fips ≡ some fips
      → PaysOut (some x) (some fips)
  unfolding IsPaidOut IsHanded winner_calls settle_evaluation settle_bid mint_bid mint_for
  pays_winner h x fips won =
      let (answer, settlement, same, fair, handed) =
        answers-IsFair d.abbr bond_id x d.auction_reasoner (λ w. (settle_bid d bond_id w).1) auction
          h in
      let (w, found, candidate, own, paid) =
        subst
          (IsHanded x bids (λ w. (settle_bid d bond_id w).1)
            (winning_bid bids (settle_evaluation bids (outcome_with (some x)))) settlement)
          won handed in
      let sent : sent_with (some x) ≡ (settle_bid d bond_id w).0 =
        ap (winner_calls d bond_id) found in
      (
        answer,
        same,
        (
          w,
          candidate.0,
          own,
          sent,
          All-imp _ _ bids
              (λ b f.
                let carried =
                  f.mint
                  ∙ ap (λ winner. if is_winner winner b.bidder_fips then settlement else none) won
                  ∙ ap (λ given. if is_winner (some fips) b.bidder_fips then given else none)
                      paid in
                (
                  carried,
                  subst (ReportsMint (answer b).mint) (sym sent)
                      (reports w fips b (answer b) carried),
                ))
              fair,
        ),
      )

  pays_out :
      IsDistinct bids
      → (credit : Option CreditAssessment) → PaysOut credit (winner_under d bond_id bids credit)
  unfolding winner_under settle_evaluation
  pays_out h none = pays_nobody none refl
  pays_out h (some x) = elim (Option-cases (winner_under d bond_id bids (some x))) [
    | inl lost ↦ subst (PaysOut (some x)) (sym lost) (pays_nobody (some x) lost)
    | inr (fips, won) ↦ subst (PaysOut (some x)) (sym won) (pays_winner h x fips won)
  ]

-- Where no bidder has two bids, and whatever the model and the chain answer, the close of an open
-- auction answers every bid that waits, in order. Where the state's evaluator lets nobody win, or
-- fails, the close sends nothing and no answer carries a mint. Where it lets somebody win, the close
-- sends the mint for a bid of the winner; the answers to the winner and to nobody else carry
-- what it gave, and a mint that an answer carries is the one transaction that was sent, of the bond
-- and the amount that it says.
pub close_auction-IsPaidOut :
    (d : Deps) (bond_id : String) (r : Registry) (auction : AuctionState)
    → lookup bond_id r.auctions ≡ some auction
    → IsDistinct (bids_of auction)
    → (answer : BondBid → BondAward) × ((close_auction d bond_id r).1.resolved
        ≡ r.resolved ++ map (λ (p : ParkedBid). (p.ticket, answer p.bid)) auction.parked)
      × IsPaidOut d bond_id
          (bids_of auction)
          (close_auction d bond_id r).0
          answer
          (winner_of d bond_id (bids_of auction))
unfolding close_auction close_found evaluate_bids winner_of assess_own_credit
close_auction-IsPaidOut d bond_id r auction there h =
    let credit = assess_own_credit d in
    let settler = λ (w : BondBid). (settle_bid d bond_id w).1 in
    let (answer, same, paid) = pays_out d bond_id auction h credit in
    (
      answer,
      ap (λ (o : Option AuctionState). (close_found d bond_id r o).1.resolved) there
          ∙ ap (λ (q : Registry). q.resolved)
              (finish_present bond_id settler (outcome_with d bond_id auction credit) r auction
                there)
          ∙ ap (λ given. r.resolved ++ given) same,
      subst
          (λ calls.
            IsPaidOut d bond_id (bids_of auction) calls answer
              (winner_of d bond_id (bids_of auction)))
          (sym (ap (λ (o : Option AuctionState). (close_found d bond_id r o).0) there)) paid,
    )
