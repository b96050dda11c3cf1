-- ===== src/Agent/Auction/Evaluate.antt =====
-- `evaluateBondAuction` in packages/agent/src/a2a/executor.ts: which bid an auction awards.
-- The language model is a service: it is a function from the request to its decision, and `none` is
-- a call that fails.

pub mod Guardrail
pub mod Best
pub mod Verdicts
pub mod Doubled
mod Tests
use federated_reserve.Prelude.{
  ℕ, String, Option, none, some, List, [], ◌∷◌, map, Bool, false, if◌then◌else◌, ltb, leb, ◌==◌,
  nat_eq, find, first, length, or_else, ◌>>=◌,
}
use federated_reserve.Prelude.Sort.{sort}
use federated_reserve.Shared.Text.{Text, lit, num, fixed, plain}
use federated_reserve.Shared.Credit.{CreditAssessment, point, rating_name}
use federated_reserve.Shared.Skills.{BondBid, AwardKind, awarded, rejected}

pub data Reason : Type 0 where
  below_floor above_ceiling : Reason

pub record Verdict : Type 0 where
  pub bidder_fips : ℕ
  pub kind : AwardKind
  pub yield_bps : ℕ
  pub rationale : Text

pub record BondAuctionEvaluation : Type 0 where
  pub winner_fips : Option ℕ
  pub per_bidder : List Verdict

-- What the model is asked, and what it may answer.
pub record AuctionQuestion : Type 0 where
  pub bond_id : String
  pub credit : CreditAssessment
  pub eligible : List BondBid
  pub ineligible : List (BondBid × Reason)

pub record ModelDecision : Type 0 where
  pub award : Bool
  pub winner_fips : Option ℕ
  pub rationale : String

-- Absent where the agent has no reasoner or reasoning is switched off.
abbrev pub AuctionReasoner : Type 0
AuctionReasoner = Option (AuctionQuestion → Option ModelDecision)

module _ (floor ceiling : ℕ) where
  -- The loop over the bids.
  pub eligible_bids : List BondBid → List BondBid
  eligible_bids [] = []
  eligible_bids (b ∷ bids) =
      let rest = eligible_bids bids in
      if ltb b.bid_yield_bps floor
      then rest
      else if ltb ceiling b.bid_yield_bps
      then rest
      else b ∷ rest

  pub ineligible_bids : List BondBid → List (BondBid × Reason)
  ineligible_bids [] = []
  ineligible_bids (b ∷ bids) =
      let rest = ineligible_bids bids in
      if ltb b.bid_yield_bps floor
      then (b, below_floor) ∷ rest
      else if ltb ceiling b.bid_yield_bps
      then (b, above_ceiling) ∷ rest
      else rest

-- The comparison is at most 0: a lower yield first, and at one yield the larger principal.
pub cheaper : BondBid → BondBid → Bool
cheaper a b =
    if a.bid_yield_bps == b.bid_yield_bps
    then leb b.principal_usd a.principal_usd
    else leb a.bid_yield_bps b.bid_yield_bps

pub same_bidder : Option ℕ → BondBid → Bool
same_bidder none b = false
same_bidder (some fips) b = b.bidder_fips == fips

-- The winner and the rationale after the model's answer, if it gave one.
pub apply_decision : List BondBid → Option ModelDecision → Option BondBid × Option String
unfolding same_bidder
apply_decision eligible none = (first eligible, none)
apply_decision eligible (some decision) =
    if decision.award
    then elim (find (same_bidder decision.winner_fips) eligible) [
      | none ↦ (first eligible, none)
      | some model_winner ↦ (some model_winner, some decision.rationale)
    ]
    else (none, some decision.rationale)

-- With no eligible bid the model is not asked, and its answer plays no part.
choose_from : List BondBid → Option ModelDecision → Option BondBid × Option String
unfolding apply_decision
choose_from [] decision = (none, none)
choose_from (b ∷ bs) decision = apply_decision (b ∷ bs) decision

pub choose : AuctionReasoner → AuctionQuestion → Option BondBid × Option String
unfolding choose_from
choose reasoner question = choose_from question.eligible (reasoner >>= λ ask. ask question)

module _ (abbr bond_id : String) (credit : CreditAssessment) where
  verdict_why : Reason → Text
  verdict_why below_floor =
      lit "Below "
      ∷ num credit.yield_floor_bps
      ∷ lit "bps floor for "
      ∷ lit (rating_name credit.rating)
      ∷ lit " ("
      ∷ lit abbr
      ∷ lit ")."
      ∷ []
  verdict_why above_ceiling =
      lit "Above "
      ∷ num credit.yield_ceiling_bps
      ∷ lit "bps ceiling for "
      ∷ lit (rating_name credit.rating)
      ∷ lit " ("
      ∷ lit abbr
      ∷ lit ")."
      ∷ []

  rejection : BondBid → Text → Verdict
  rejection b why = record {
    bidder_fips = b.bidder_fips;
    kind = rejected;
    yield_bps = b.bid_yield_bps;
    rationale = lit abbr ∷ lit " rejects FIPS " ∷ num b.bidder_fips ∷ lit ": " ∷ why;
  }

  award_text : BondBid → ℕ → Text
  award_text b eligible =
      lit abbr
      ∷ lit " awards "
      ∷ lit bond_id
      ∷ lit " at "
      ∷ num b.bid_yield_bps
      ∷ lit "bps (lowest of "
      ∷ num eligible
      ∷ lit (if eligible == 1 then " eligible bid). Rating " else " eligible bids). Rating ")
      ∷ lit (rating_name credit.rating)
      ∷ lit ", score "
      ∷ fixed 1 credit.score point
      ∷ lit "."
      ∷ []

  pub verdict_for : ℕ → List (BondBid × Reason) → Option BondBid → Option String → BondBid → Verdict
  unfolding verdict_why rejection award_text
  verdict_for eligible ineligible winner rationale b =
      elim (find (λ x. x.0.bidder_fips == b.bidder_fips) ineligible) [
        | some (_, reason) ↦ rejection b (verdict_why reason)
        | none ↦ elim winner [
          | none ↦ rejection b (plain (or_else rationale "no eligible bids awarded in window."))
          | some w ↦
              if b.bidder_fips == w.bidder_fips
              then record {
                bidder_fips = b.bidder_fips;
                kind = awarded;
                yield_bps = b.bid_yield_bps;
                rationale = elim rationale [ some r ↦ plain r | none ↦ award_text b eligible ];
              }
              else rejection b (
                  lit "outbid by FIPS "
                  ∷ num w.bidder_fips
                  ∷ lit " at "
                  ∷ num w.bid_yield_bps
                  ∷ lit "bps."
                  ∷ [])
        ]
      ]

  abbrev pub question_of : List BondBid → AuctionQuestion
  question_of bids = record {
    bond_id = bond_id;
    credit = credit;
    eligible = sort cheaper (eligible_bids credit.yield_floor_bps credit.yield_ceiling_bps bids);
    ineligible = ineligible_bids credit.yield_floor_bps credit.yield_ceiling_bps bids;
  }

  pub evaluate_bond_auction : AuctionReasoner → List BondBid → BondAuctionEvaluation
  unfolding choose verdict_for
  evaluate_bond_auction reasoner bids =
      let question = question_of bids in
      let (winner, rationale) = choose reasoner question in
      record {
        winner_fips = winner >>= λ w. some w.bidder_fips;
        per_bidder =
            map (verdict_for (length question.eligible) question.ineligible winner rationale) bids;
      }
