-- ===== src/Agent/Auction/Evaluate/Verdicts.antt =====
-- The verdicts of an evaluation.
use federated_reserve.Prelude.{
  ℕ, ◌<◌, ◌≡◌, ◌≢◌, ◌↔◌, ◌⊎◌, refl, sym, subst, String, Option, none, some, List, [], ◌∷◌, arith,
  map, All, In, find, All-imp, All-In, find-eq-none, Option-cases, inl, inr, ◌==◌, nat_eq, length,
  ap, ◌∙◌, All-In_self,
}
use federated_reserve.Shared.Credit.{CreditAssessment}
use federated_reserve.Shared.Skills.{BondBid, awarded}
use federated_reserve.Agent.Auction.Evaluate.{
  Reason, AuctionReasoner, AuctionQuestion, Verdict, choose, verdict_for, evaluate_bond_auction,
  question_of,
}
use federated_reserve.Agent.Auction.Evaluate.Guardrail.{
  IsCandidate, choose-IsCandidate, ineligible_bids-All,
}

-- No bidder has two bids.
abbrev pub IsDistinct : List BondBid → Type 0
IsDistinct [] = Unit
IsDistinct (b ∷ bs) = All (λ c. c.bidder_fips ≢ b.bidder_fips) bs × IsDistinct bs

pub IsDistinct-injective :
    (bs : List BondBid) (a c : BondBid)
    → IsDistinct bs
    → In a bs
    → In c bs
    → a.bidder_fips ≡ c.bidder_fips
    → a ≡ c
IsDistinct-injective [] a c d m n e = elim m [ ]
IsDistinct-injective (b ∷ bs) a c (d, ds) (inl m) (inl n) e = m ∙ sym n
IsDistinct-injective (b ∷ bs) a c (d, ds) (inl m) (inr n) e =
    absurd (All-In _ bs c d n (sym e ∙ ap (λ (z : BondBid). z.bidder_fips) m))
IsDistinct-injective (b ∷ bs) a c (d, ds) (inr m) (inl n) e =
    absurd (All-In _ bs a d m (e ∙ ap (λ (z : BondBid). z.bidder_fips) n))
IsDistinct-injective (b ∷ bs) a c (d, ds) (inr m) (inr n) e = IsDistinct-injective bs a c ds m n e

module _ (abbr bond_id : String) (credit : CreditAssessment) (eligible : ℕ)
    (ineligible : List (BondBid × Reason)) (winner : Option BondBid) (rationale : Option String)
    (b : BondBid) where
  abbrev verdict : Verdict
  verdict = verdict_for abbr bond_id credit eligible ineligible winner rationale b

  -- An award needs a winner with the bidder's number.
  verdict_for_awarded :
      verdict.kind ≡ awarded → (w : BondBid) × (winner ≡ some w) × (b.bidder_fips ≡ w.bidder_fips)
  unfolding verdict_for
  verdict_for_awarded e = ground arith

  -- A bidder with no bid outside the guardrail is awarded if the winner has its number.
  awarded_of_winner :
      (w : BondBid)
      → All (λ x. x.0.bidder_fips ≢ b.bidder_fips) ineligible
      → winner ≡ some w
      → b.bidder_fips ≡ w.bidder_fips
      → verdict.kind ≡ awarded
  unfolding verdict_for
  awarded_of_winner w h e same =
      let clear : find (λ x. x.0.bidder_fips == b.bidder_fips) ineligible ≡ none =
        find-eq-none _ ineligible
          (All-imp (λ x. x.0.bidder_fips ≢ b.bidder_fips) _ ineligible (λ x k. ground arith) h) in
      ground arith

  verdict_for_self : (verdict.bidder_fips ≡ b.bidder_fips) × (verdict.yield_bps ≡ b.bid_yield_bps)
  unfolding verdict_for
  verdict_for_self = ground arith

-- A verdict tells its bidder the truth: it repeats the bid's number and yield, and awards exactly
-- the winner.
pub record IsTrue (winner : Option ℕ) (b : BondBid) (v : Verdict) : Type 0 where
  pub bidder : v.bidder_fips ≡ b.bidder_fips
  pub quoted : v.yield_bps ≡ b.bid_yield_bps
  pub fair : (v.kind ≡ awarded) ↔ (winner ≡ some b.bidder_fips)

module _ (abbr bond_id : String) (credit : CreditAssessment) (reasoner : AuctionReasoner)
    (bids : List BondBid) where
  abbrev asked : AuctionQuestion
  asked = question_of abbr bond_id credit bids

  -- The verdict that an evaluation gives a bid.
  abbrev pub verdict_of : BondBid → Verdict
  verdict_of =
      verdict_for abbr bond_id credit (length asked.eligible) asked.ineligible
        (choose reasoner asked).0 (choose reasoner asked).1

  not_ineligible :
      (w b : BondBid)
      → IsDistinct bids
      → IsCandidate credit bids w
      → b.bidder_fips ≡ w.bidder_fips
      → All (λ x. x.0.bidder_fips ≢ b.bidder_fips) (question_of abbr bond_id credit bids).ineligible
  not_ineligible w b d (m, inside) same =
      All-imp _ _ (question_of abbr bond_id credit bids).ineligible
        (λ x (n, outside) e.
          let one = IsDistinct-injective bids x.0 w d n m (e ∙ same) in
          absurd (
            subst
              (λ (z : BondBid).
                (z.bid_yield_bps < credit.yield_floor_bps)
                  ⊎ (credit.yield_ceiling_bps < z.bid_yield_bps)
                → ⊥)
              (sym one) (λ k. ground arith) outside))
        (ineligible_bids-All _ _ (λ z. In z bids) bids (All-In_self bids))

  pub verdict_of-IsTrue :
      (b : BondBid)
      → IsDistinct bids
      → IsTrue
          (evaluate_bond_auction abbr bond_id credit reasoner bids).winner_fips
          b
          (verdict_of b)
  unfolding evaluate_bond_auction
  verdict_of-IsTrue b d =
      let count : ℕ = length asked.eligible in
      let note : Option String = (choose reasoner asked).1 in
      let winner : Option BondBid = (choose reasoner asked).0 in
      record {
        bidder = (verdict_for_self abbr bond_id credit count asked.ineligible winner note b).0;
        quoted = (verdict_for_self abbr bond_id credit count asked.ineligible winner note b).1;
        fair = (
          λ e.
              let (w, found, same) =
                verdict_for_awarded abbr bond_id credit count asked.ineligible winner note b e in
              rw found (ap some (sym same)),
          λ e. elim (Option-cases (choose reasoner asked).0) [
            | inl missing ↦ absurd (ground arith)
            | inr (w, found) ↦
                let same : b.bidder_fips ≡ w.bidder_fips = ground arith in
                awarded_of_winner abbr bond_id credit count asked.ineligible winner note b w
                  (not_ineligible w b d
                    (choose-IsCandidate abbr bond_id credit reasoner bids w found) same)
                  found same
          ],
        );
      }

  -- Where no bidder has two bids, an evaluation gives one verdict for each bid, in their order; it
  -- repeats the bidder's number and yield, and it is an award exactly where the bidder won.
  pub evaluate_bond_auction-IsTrue :
      IsDistinct bids
      → let e = evaluate_bond_auction abbr bond_id credit reasoner bids in
        (v : BondBid → Verdict) × (e.per_bidder ≡ map v bids)
        × All (λ b. IsTrue e.winner_fips b (v b)) bids
  unfolding evaluate_bond_auction
  evaluate_bond_auction-IsTrue d = (
    verdict_of,
    refl,
    All-imp (λ b. In b bids) _ bids (λ b _. verdict_of-IsTrue b d) (All-In_self bids),
  )
