-- ===== src/Agent/Auction/Registry/Account.antt =====
-- Where the bids of BondAuctionRegistry are: which wait, and which have been answered.
use federated_reserve.Prelude.{
  ℕ, ◌+◌, ◌≡◌, refl, subst, ◌∙◌, String, Option, some, List, [], ◌∷◌, ◌++◌, map, true, false, arith,
  if◌then◌else◌, ◌==◌, nat_eq, string_eq, Bool-cases, Option-cases, inl, inr,
}
use federated_reserve.Prelude.Dict.{
  Dict, lookup, insert, erase, IsNodup, weigh, insert-IsNodup, erase-IsNodup, weigh-insert_new,
  weigh-insert, weigh-erase,
}
use federated_reserve.Shared.Skills.{BondBid, BondAward}
use federated_reserve.Agent.Auction.Evaluate.{BondAuctionEvaluation}
use federated_reserve.Agent.Auction.Registry.{
  ParkedBid, AuctionState, Registry, fresh, opened, park, submit, submit_open, begin, finish,
  answers, closed_award, Settler, Runs, started, submitted, timer_fired, microtask_ran, evaluated,
}

abbrev pub count : ℕ → List ℕ → ℕ
count t [] = 0
count t (x ∷ xs) = (if x == t then 1 else 0) + count t xs

pub count-append : (t : ℕ) (xs ys : List ℕ) → count t (xs ++ ys) ≡ count t xs + count t ys
count-append t [] ys = omega arith
count-append t (x ∷ xs) ys = omega (arith, count-append t xs ys)

-- How often a ticket waits in an auction.
abbrev pub waiting : ℕ → AuctionState → ℕ
waiting t auction = count t (map (λ (p : ParkedBid). p.ticket) auction.parked)

-- How often a ticket has been answered.
abbrev pub answered : ℕ → List (ℕ × BondAward) → ℕ
answered t log = count t (map (λ (x : ℕ × BondAward). x.0) log)

-- Every submitted ticket waits in one auction or has been answered, once for each submission.
pub record IsAccounted (tickets : List ℕ) (r : Registry) : Type 0 where
  pub nodup : IsNodup r.auctions
  pub balance : (t : ℕ) → count t tickets ≡ weigh (waiting t) r.auctions + answered t r.resolved

answered-append :
    (t : ℕ) (xs ys : List (ℕ × BondAward)) → answered t (xs ++ ys) ≡ answered t xs + answered t ys
answered-append t [] ys = omega arith
answered-append t (x ∷ xs) ys = omega (arith, answered-append t xs ys)

waiting-append :
    (t : ℕ) (ps : List ParkedBid) (p : ParkedBid)
    → count t (map (λ (p : ParkedBid). p.ticket) (ps ++ p ∷ []))
      ≡ count t (map (λ (p : ParkedBid). p.ticket) ps) + count t (p.ticket ∷ [])
waiting-append t [] p = omega arith
waiting-append t (q ∷ ps) p = omega (arith, waiting-append t ps p)

answered-map :
    (t : ℕ) (f : BondBid → BondAward) (ps : List ParkedBid)
    → answered t (map (λ (p : ParkedBid). (p.ticket, f p.bid)) ps)
      ≡ count t (map (λ (p : ParkedBid). p.ticket) ps)
answered-map t f [] = refl
answered-map t f (p ∷ ps) = omega (arith, answered-map t f ps)

waiting-park :
    (max_bids t : ℕ) (p : ParkedBid) (auction : AuctionState)
    → waiting t (park max_bids p auction).0 ≡ waiting t auction + count t (p.ticket ∷ [])
unfolding park
waiting-park max_bids t p auction = waiting-append t auction.parked p

-- What parking adds to the weight of the auctions.
weigh-park :
    (max_bids t : ℕ) (key : String) (p : ParkedBid) (m : Dict String AuctionState)
    → weigh (waiting t) (insert key (park max_bids p (opened (lookup key m))).0 m)
      ≡ weigh (waiting t) m + count t (p.ticket ∷ [])
unfolding opened
weigh-park max_bids t key p m = elim (Option-cases (lookup key m)) [
  | inl absent ↦ rw absent (
      weigh-insert_new (waiting t) key (park max_bids p fresh).0 m absent
      ∙ omega (arith, waiting-park max_bids t p fresh))
  | inr (old, found) ↦ rw found (
      omega (
        arith,
        weigh-insert (waiting t) key (park max_bids p old).0 old m found,
        waiting-park max_bids t p old,
      ))
]

submit_open-IsAccounted :
    (max_bids : ℕ) (p : ParkedBid) {tickets : List ℕ} (r : Registry)
    → IsAccounted tickets r
    → IsAccounted
        (p.ticket ∷ tickets)
        (submit_open max_bids p (opened (lookup p.bid.bond_id r.auctions)) r)
unfolding submit_open
submit_open-IsAccounted max_bids p r h = record {
  nodup = insert-IsNodup p.bid.bond_id _ r.auctions h.nodup;
  balance = λ t. omega (arith, h.balance t, weigh-park max_bids t p.bid.bond_id p r.auctions);
}

closed-IsAccounted :
    (ticket : ℕ) (a : BondAward) {tickets : List ℕ} (r : Registry)
    → IsAccounted tickets r
    → IsAccounted (ticket ∷ tickets) (record r { resolved = r.resolved ++ (ticket, a) ∷ [] })
closed-IsAccounted ticket a r h = record {
  nodup = h.nodup;
  balance = λ t. omega (arith, h.balance t, answered-append t r.resolved ((ticket, a) ∷ []));
}

submit-IsAccounted :
    (max_bids ticket : ℕ) (bid : BondBid) {tickets : List ℕ} (r : Registry)
    → IsAccounted tickets r
    → IsAccounted (ticket ∷ tickets) (submit max_bids ticket bid r)
unfolding submit
submit-IsAccounted max_bids ticket bid r h =
    elim (Bool-cases (opened (lookup bid.bond_id r.auctions)).evaluating) [
      | inl closed ↦ simp closed (closed-IsAccounted ticket (closed_award bid) r h)
      | inr still_open ↦
          simp still_open
            (submit_open-IsAccounted max_bids (record { bid = bid; ticket = ticket }) r h)
    ]

begun-IsAccounted :
    (key : String) (auction : AuctionState) {tickets : List ℕ} (r : Registry)
    → lookup key r.auctions ≡ some auction
    → IsAccounted tickets r
    → IsAccounted tickets (record r {
      auctions = insert key (record auction { evaluating = true; timer = false }) r.auctions;
    })
begun-IsAccounted key auction r found h = record {
  nodup = insert-IsNodup key _ r.auctions h.nodup;
  balance = λ t. omega (
    arith,
    h.balance t,
    weigh-insert (waiting t) key (record auction { evaluating = true; timer = false }) auction
        r.auctions found,
  );
}

begin-IsAccounted :
    (key : String) {tickets : List ℕ} (r : Registry)
    → IsAccounted tickets r
    → IsAccounted tickets (begin key r)
unfolding begin
begin-IsAccounted key {tickets} r h = elim (Option-cases (lookup key r.auctions)) [
  | inl absent ↦ subst (IsAccounted tickets) (ground arith) h
  | inr (auction, found) ↦ elim (Bool-cases auction.evaluating) [
    | inl begun ↦ subst (IsAccounted tickets) (ground arith) h
    | inr waits ↦
        subst (IsAccounted tickets) (ground arith) (begun-IsAccounted key auction r found h)
  ]
]

answered-answers :
    (t : ℕ) (key : String) (settler : Settler) (outcome : Option BondAuctionEvaluation)
    (auction : AuctionState)
    → answered t (answers key settler outcome auction) ≡ waiting t auction
unfolding answers
answered-answers t key settler outcome auction = answered-map t _ auction.parked

finished-IsAccounted :
    (key : String) (settler : Settler) (outcome : Option BondAuctionEvaluation)
    (auction : AuctionState) {tickets : List ℕ} (r : Registry)
    → lookup key r.auctions ≡ some auction
    → IsAccounted tickets r
    → IsAccounted tickets (record r {
      auctions = erase key r.auctions;
      resolved = r.resolved ++ answers key settler outcome auction;
    })
finished-IsAccounted key settler outcome auction r found h = record {
  nodup = erase-IsNodup key r.auctions h.nodup;
  balance = λ t. omega (
    arith,
    h.balance t,
    weigh-erase (waiting t) key auction r.auctions h.nodup found,
    answered-append t r.resolved (answers key settler outcome auction),
    answered-answers t key settler outcome auction,
  );
}

finish-IsAccounted :
    (key : String) (settler : Settler) (outcome : Option BondAuctionEvaluation) {tickets : List ℕ}
    (r : Registry)
    → IsAccounted tickets r
    → IsAccounted tickets (finish key settler outcome r)
unfolding finish
finish-IsAccounted key settler outcome {tickets} r h = elim (Option-cases (lookup key r.auctions)) [
  | inl absent ↦ subst (IsAccounted tickets) (ground arith) h
  | inr (auction, found) ↦
      subst (IsAccounted tickets) (ground arith)
        (finished-IsAccounted key settler outcome auction r found h)
]

-- Whatever happens to a registry, every submitted ticket either waits in exactly one auction or has
-- been answered exactly once, counted as often as it was submitted, and no auction is listed twice.
pub Runs-IsAccounted :
    {max_bids : ℕ} {tickets : List ℕ} {r : Registry}
    → Runs max_bids tickets r
    → IsAccounted tickets r
Runs-IsAccounted started = record { nodup = tt; balance = λ t. refl }
Runs-IsAccounted (submitted ticket bid run) =
    submit-IsAccounted _ ticket bid _ (Runs-IsAccounted run)
Runs-IsAccounted (timer_fired key auction run found set_timer) =
    begin-IsAccounted key _ (Runs-IsAccounted run)
Runs-IsAccounted (microtask_ran {r} key rest run queued) =
    let h = Runs-IsAccounted run in
    begin-IsAccounted key (record r { microtasks = rest })
      (record { nodup = h.nodup; balance = h.balance })
Runs-IsAccounted (evaluated key auction settler outcome run found begun) =
    finish-IsAccounted key settler outcome _ (Runs-IsAccounted run)
