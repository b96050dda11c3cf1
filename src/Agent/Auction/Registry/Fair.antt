-- ===== src/Agent/Auction/Registry/Fair.antt =====
-- What an auction tells its bidders, with the agent's own evaluator.
use federated_reserve.Prelude.{
  if◌then◌else◌, ◌⊎◌, ℕ, ◌≡◌, ◌↔◌, refl, sym, ap, ◌∙◌, subst, String, Option, none, some, List, [],
  ◌∷◌, map, Bool, true, arith, All, In, find, All-imp, All-In, All-In_self, find-In, find_sound,
  find_complete, Bool-cases, inl, inr, ◌==◌, nat_eq, ◌>>=◌,
}
use federated_reserve.Shared.Credit.{CreditAssessment}
use federated_reserve.Shared.Skills.{
  BondBid, BondAward, AwardKind, awarded, rejected, BondMintSettlementResult,
}
use federated_reserve.Agent.Auction.Evaluate.{
  AuctionReasoner, Verdict, BondAuctionEvaluation, evaluate_bond_auction,
}
use federated_reserve.Agent.Auction.Evaluate.Verdicts.{
  IsDistinct, IsDistinct-injective, IsTrue, evaluate_bond_auction-IsTrue,
}
use federated_reserve.Agent.Auction.Registry.{
  ParkedBid, AuctionState, Settler, bids_of, winning_bid, is_winner, award_for, answers,
  settle_evaluation,
}
use federated_reserve.Agent.Auction.Registry.Winner.{IsHanded, winning_bid-IsHanded}

In-map {ℓ κ} :
    {A : Type ℓ} {B : Type κ} (f : A → B) (xs : List A) (b : B)
    → In b (map f xs)
    → (a : A) × In a xs × (b ≡ f a)
In-map f [] b m = elim m [ ]
In-map f (x ∷ xs) b (inl e) = (x, inl refl, e)
In-map f (x ∷ xs) b (inr m) = let (a, n, e) = In-map f xs b m in (a, inr n, e)

In-map_of {ℓ κ} :
    {A : Type ℓ} {B : Type κ} (f : A → B) (xs : List A) (a : A) → In a xs → In (f a) (map f xs)
In-map_of f [] a m = elim m [ ]
In-map_of f (x ∷ xs) a (inl e) = inl (ap f e)
In-map_of f (x ∷ xs) a (inr m) = inr (In-map_of f xs a m)

module _ (bids : List BondBid) (d : IsDistinct bids) (v : BondBid → Verdict)
    (winner : Option ℕ) where
  -- The first verdict with a bidder's number is the verdict on its bid.
  find_verdict :
      (b : BondBid)
      → In b bids
      → All (λ c. IsTrue winner c (v c)) bids
      → find (λ (x : Verdict). x.bidder_fips == b.bidder_fips) (map v bids) ≡ some (v b)
  find_verdict b m true_all =
      let test : Verdict → Bool = λ x. x.bidder_fips == b.bidder_fips in
      let own : (v b).bidder_fips ≡ b.bidder_fips = (All-In _ bids b true_all m).bidder in
      let (x, found) =
        find_complete test (map v bids) (v b) (In-map_of v bids b m) (ground arith) in
      let same : x.bidder_fips ≡ b.bidder_fips =
        ground (arith, find_sound test (map v bids) x found) in
      let (c, n, is) = In-map v bids x (find-In test (map v bids) x found) in
      let theirs : (v c).bidder_fips ≡ c.bidder_fips = (All-In _ bids c true_all n).bidder in
      let one : c ≡ b = IsDistinct-injective bids c b d n m (ground arith) in
      found ∙ ap some (is ∙ ap v one)

-- An award as it follows from its verdict.
record IsEarned (winner : Option ℕ) (settlement : Option BondMintSettlementResult) (b : BondBid)
    (a : BondAward) : Type 0 where
  pub kind : (a.kind ≡ awarded) ↔ (winner ≡ some b.bidder_fips)
  pub paid : winner ≡ some b.bidder_fips → a.mint ≡ settlement
  pub unpaid : a.kind ≡ rejected → a.mint ≡ none
  pub quoted : a.yield_bps ≡ b.bid_yield_bps

module _ (bond_id : String) (evaluation : BondAuctionEvaluation)
    (settlement : Option BondMintSettlementResult) (b : BondBid) (x : Verdict) where
  award_for_found :
      find (λ (v : Verdict). v.bidder_fips == b.bidder_fips) evaluation.per_bidder ≡ some x
      → let a = award_for bond_id evaluation settlement b in
        (a.kind ≡ x.kind)
        × (a.yield_bps ≡ x.yield_bps)
        × (a.kind ≡ rejected → a.mint ≡ none)
        × (a.kind ≡ awarded → evaluation.winner_fips ≡ some b.bidder_fips → a.mint ≡ settlement)
  unfolding award_for
  award_for_found found = (ground arith, ground arith, λ e. ground arith, λ e k. ground arith)

  award_for-IsEarned :
      find (λ (v : Verdict). v.bidder_fips == b.bidder_fips) evaluation.per_bidder ≡ some x
      → IsTrue evaluation.winner_fips b x
      → IsEarned evaluation.winner_fips settlement b (award_for bond_id evaluation settlement b)
  award_for-IsEarned found t =
      let (kind, quoted, unpaid, paid) = award_for_found found in
      record {
        kind = (λ e. t.fair.0 (sym kind ∙ e), λ e. kind ∙ t.fair.1 e);
        paid = λ e. paid (kind ∙ t.fair.1 e) e;
        unpaid = unpaid;
        quoted = quoted ∙ t.quoted;
      }

-- The answer to a bid is an award exactly where its bidder won, it repeats the yield, and it carries
-- the mint's metadata, as the settler gave it, exactly where its bidder won.
pub record IsFair (winner : Option ℕ) (settlement : Option BondMintSettlementResult) (b : BondBid)
    (a : BondAward) : Type 0 where
  pub kind : (a.kind ≡ awarded) ↔ (winner ≡ some b.bidder_fips)
  pub mint : a.mint ≡ (if is_winner winner b.bidder_fips then settlement else none)
  pub quoted : a.yield_bps ≡ b.bid_yield_bps

is_winner_sound : (winner : Option ℕ) (fips : ℕ) → is_winner winner fips ≡ true → winner ≡ some fips
unfolding is_winner
is_winner_sound none fips e = cc
is_winner_sound (some w) fips e = ground arith

is_winner_self : (fips : ℕ) → is_winner (some fips) fips ≡ true
unfolding is_winner
is_winner_self fips = ground arith

AwardKind-cases : (k : AwardKind) → (k ≡ awarded) ⊎ (k ≡ rejected)
AwardKind-cases awarded = inl refl
AwardKind-cases rejected = inr refl

IsEarned-IsFair :
    (winner : Option ℕ) (settlement : Option BondMintSettlementResult) (b : BondBid) (a : BondAward)
    → IsEarned winner settlement b a
    → IsFair winner settlement b a
IsEarned-IsFair winner settlement b a h = elim (Bool-cases (is_winner winner b.bidder_fips)) [
  | inl e ↦ record {
    kind = h.kind;
    mint = rw e (h.paid (is_winner_sound winner b.bidder_fips e));
    quoted = h.quoted;
  }
  | inr e ↦ record {
    kind = h.kind;
    mint = rw e (elim (AwardKind-cases a.kind) [
      | inl k ↦
          let won =
            subst (λ w. is_winner w b.bidder_fips ≡ true) (sym (h.kind.0 k))
              (is_winner_self b.bidder_fips) in
          absurd (ground arith)
      | inr k ↦ h.unpaid k
    ]);
    quoted = h.quoted;
  }
]

module _ (abbr bond_id : String) (credit : CreditAssessment) (reasoner : AuctionReasoner)
    (settler : Settler) (auction : AuctionState) where
  abbrev evaluation : BondAuctionEvaluation
  evaluation = evaluate_bond_auction abbr bond_id credit reasoner (bids_of auction)

  abbrev chosen : Option BondBid
  chosen = winning_bid (bids_of auction) evaluation

  -- Where no bidder has two bids, every bid that waits in an auction is answered fairly by the
  -- agent's evaluator: exactly the winner is awarded, at the yield that it bid, its award carries
  -- the settlement and a rejection carries nothing. Where somebody wins, the winner's bid is found
  -- in the auction, it lies inside the credit guardrail, and the settlement is what the settler
  -- gives for it; where nobody wins, no bid is handed to the settler and there is no settlement.
  pub answers-IsFair :
      IsDistinct (bids_of auction)
      → (answer : BondBid → BondAward) × (settlement : Option BondMintSettlementResult) × (answers
            bond_id settler
            (some evaluation)
            auction
          ≡ map (λ (p : ParkedBid). (p.ticket, answer p.bid)) auction.parked)
        × All (λ b. IsFair evaluation.winner_fips settlement b (answer b)) (bids_of auction)
        × IsHanded credit (bids_of auction) settler chosen settlement evaluation.winner_fips
  unfolding answers
  answers-IsFair d =
      let bids : List BondBid = bids_of auction in
      let settlement : Option BondMintSettlementResult = chosen >>= settler in
      let (v, each, true_all) = evaluate_bond_auction-IsTrue abbr bond_id credit reasoner bids d in
      (
        award_for bond_id evaluation settlement,
        settlement,
        refl,
        All-imp (λ b. In b bids) _ bids
            (λ b m. IsEarned-IsFair _ _ b _ (
              award_for-IsEarned bond_id evaluation settlement b (v b)
                (ap (find (λ (x : Verdict). x.bidder_fips == b.bidder_fips)) each
                  ∙ find_verdict bids d v evaluation.winner_fips b m true_all)
                (All-In _ bids b true_all m)))
            (All-In_self bids),
        winning_bid-IsHanded abbr bond_id credit reasoner settler auction d,
      )

-- Where nobody wins, no answer carries a mint, whatever the verdicts are.
award_for-no_winner :
    (bond_id : String) (evaluation : BondAuctionEvaluation)
    (settlement : Option BondMintSettlementResult) (b : BondBid)
    → evaluation.winner_fips ≡ none
    → (award_for bond_id evaluation settlement b).mint ≡ none
unfolding award_for is_winner
award_for-no_winner bond_id evaluation settlement b lost = ground (arith, lost)

pub answers-no_winner :
    (bond_id : String) (settler : Settler) (outcome : Option BondAuctionEvaluation)
    (auction : AuctionState)
    → (settle_evaluation (bids_of auction) outcome).winner_fips ≡ none
    → (answer : BondBid → BondAward) × (answers bond_id settler outcome auction
        ≡ map (λ (p : ParkedBid). (p.ticket, answer p.bid)) auction.parked)
      × All (λ b. (answer b).mint ≡ none) (bids_of auction)
unfolding answers
answers-no_winner bond_id settler outcome auction lost =
    let bids : List BondBid = bids_of auction in
    let evaluation : BondAuctionEvaluation = settle_evaluation bids outcome in
    (
      award_for bond_id evaluation (winning_bid bids evaluation >>= settler),
      refl,
      All-imp (λ b. In b bids) _ bids (λ b m. award_for-no_winner bond_id evaluation _ b lost)
          (All-In_self bids),
    )
