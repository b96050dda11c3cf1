-- ===== src/Agent/Auction/Registry/Live.antt =====
-- The timers and queued calls of BondAuctionRegistry.
use federated_reserve.Prelude.{
  ℕ, ◌≡◌, refl, sym, subst, ◌⊎◌, String, Option, none, some, List, [], ◌∷◌, ◌++◌, Bool, true, false,
  arith, if◌then◌else◌, In, ◌==◌, nat_eq, string_eq, Bool-cases, Option-cases, inl, inr,
}
use federated_reserve.Prelude.Dict.{lookup, insert, erase, lookup-insert, lookup-erase}
use federated_reserve.Shared.Skills.{BondBid}
use federated_reserve.Agent.Auction.Evaluate.{BondAuctionEvaluation}
use federated_reserve.Agent.Auction.Registry.{
  ParkedBid, AuctionState, Registry, opened, park, submit, submit_open, begin, finish, answers,
  Settler, Runs, started, submitted, timer_fired, microtask_ran, evaluated,
}

-- What will start the evaluation of an auction that waits.
abbrev pub IsDue : List String → String → AuctionState → Type 0
IsDue queue key auction = auction.evaluating ≡ false → (auction.timer ≡ true) ⊎ In key queue

abbrev pub IsLive : Registry → Type 0
IsLive r =
    (key : String) (auction : AuctionState)
    → lookup key r.auctions ≡ some auction
    → IsDue r.microtasks key auction

In-append_left {ℓ} : {A : Type ℓ} (a : A) (xs ys : List A) → In a xs → In a (xs ++ ys)
In-append_left a [] ys m = elim m [ ]
In-append_left a (x ∷ xs) ys (inl e) = inl e
In-append_left a (x ∷ xs) ys (inr m) = inr (In-append_left a xs ys m)

In-append_last {ℓ} : {A : Type ℓ} (a : A) (xs : List A) → In a (xs ++ a ∷ [])
In-append_last a [] = inl refl
In-append_last a (x ∷ xs) = inr (In-append_last a xs)

-- After an entry is written, the auctions are due if the written one is and the rest stay so.
insert-IsLive :
    (key : String) (next : AuctionState) (r : Registry) (queue : List String)
    → IsDue queue key next
    → ((k : String) (a : AuctionState)
        → lookup k r.auctions ≡ some a
        → (key == k) ≡ false
        → IsDue queue k a)
    → IsLive (record r { auctions = insert key next r.auctions; microtasks = queue })
insert-IsLive key next r queue due rest k a found = elim (Bool-cases (key == k)) [
  | inl same ↦
      let one : key ≡ k = (string_eq.same_iff key k).0 same in
      let is : next ≡ a = ground (arith, lookup-insert key k next r.auctions) in
      subst (λ z. IsDue queue z a) one (subst (IsDue queue key) is due)
  | inr other ↦ rest k a (ground (arith, lookup-insert key k next r.auctions)) other
]

-- A queue that grows, or not, by one key.
abbrev queued : Bool → List String → String → List String
queued full queue key = if full then queue ++ key ∷ [] else queue

In-queued :
    (full : Bool) (k key : String) (queue : List String) → In k queue → In k (queued full queue key)
In-queued true k key queue m = In-append_left k queue (key ∷ []) m
In-queued false k key queue m = m

park_trigger :
    (max_bids : ℕ) (p : ParkedBid) (auction : AuctionState) (full : Bool)
    → (park max_bids p auction).1 ≡ full
    → (park max_bids p auction).0.timer ≡ (if full then false else true)
unfolding park
park_trigger max_bids p auction full e = rw e

park-IsDue :
    (max_bids : ℕ) (p : ParkedBid) (auction : AuctionState) (key : String) (queue : List String)
    (full : Bool)
    → (park max_bids p auction).1 ≡ full
    → IsDue (queued full queue key) key (park max_bids p auction).0
park-IsDue max_bids p auction key queue true e waits = inr (In-append_last key queue)
park-IsDue max_bids p auction key queue false e waits =
    inl (park_trigger max_bids p auction false e)

submit_open-IsLive :
    (max_bids : ℕ) (p : ParkedBid) (auction : AuctionState) (r : Registry)
    → IsLive r
    → IsLive (submit_open max_bids p auction r)
unfolding submit_open
submit_open-IsLive max_bids p auction r h =
    let key = p.bid.bond_id in
    let full : Bool = (park max_bids p auction).1 in
    insert-IsLive key (park max_bids p auction).0 r (queued full r.microtasks key)
      (park-IsDue max_bids p auction key r.microtasks full refl)
      (λ k a found other waits. widen (a.timer ≡ true) k full (h k a found waits))
  where
    widen :
        (T : Type 0) (k : String) (full : Bool)
        → T ⊎ In k r.microtasks
        → T ⊎ In k (queued full r.microtasks p.bid.bond_id)
    widen T k full (inl t) = inl t
    widen T k full (inr m) = inr (In-queued full k p.bid.bond_id r.microtasks m)

submit-IsLive :
    (max_bids ticket : ℕ) (bid : BondBid) (r : Registry)
    → IsLive r
    → IsLive (submit max_bids ticket bid r)
unfolding submit
submit-IsLive max_bids ticket bid r h =
    elim (Bool-cases (opened (lookup bid.bond_id r.auctions)).evaluating) [
      | inl closed ↦ simp closed h
      | inr still_open ↦ simp still_open (
          submit_open-IsLive max_bids (record { bid = bid; ticket = ticket })
            (opened (lookup bid.bond_id r.auctions)) r h)
    ]

module _ (key : String) (queue : List String) (r : Registry) (h : IsLive r)
    (others : (k : String) → (key == k) ≡ false → In k r.microtasks → In k queue) where
  -- The queue may lose the call for `key`: the other auctions stay due.
  rest-IsDue :
      (k : String) (a : AuctionState)
      → lookup k r.auctions ≡ some a
      → (key == k) ≡ false
      → IsDue queue k a
  rest-IsDue k a found other waits = pass (h k a found waits)
    where
      pass : (a.timer ≡ true) ⊎ In k r.microtasks → (a.timer ≡ true) ⊎ In k queue
      pass (inl t) = inl t
      pass (inr m) = inr (others k other m)

  -- If the auction of `key` is absent or under evaluation, all the others are due.
  shrink-IsLive :
      ((a : AuctionState) → lookup key r.auctions ≡ some a → a.evaluating ≡ true)
      → IsLive (record r { microtasks = queue })
  shrink-IsLive busy k a found = elim (Bool-cases (key == k)) [
    | inl same ↦ λ waits.
        let one : key ≡ k = (string_eq.same_iff key k).0 same in
        absurd (ground (arith, busy a (subst (λ z. lookup z r.auctions ≡ some a) (sym one) found)))
    | inr other ↦ rest-IsDue k a found other
  ]

  begin_idle :
      ((a : AuctionState) → lookup key r.auctions ≡ some a → a.evaluating ≡ true)
      → begin key (record r { microtasks = queue }) ≡ record r { microtasks = queue }
  unfolding begin
  begin_idle busy = elim (Option-cases (lookup key r.auctions)) [
    | inl absent ↦ ground arith
    | inr (a, there) ↦ ground (arith, busy a there)
  ]

  begin_started :
      (a : AuctionState)
      → lookup key r.auctions ≡ some a
      → a.evaluating ≡ false
      → begin key (record r { microtasks = queue }) ≡ record r {
        auctions = insert key (record a { evaluating = true; timer = false }) r.auctions;
        microtasks = queue;
      }
  unfolding begin
  begin_started a there waits = ground arith

  idle-IsLive :
      ((a : AuctionState) → lookup key r.auctions ≡ some a → a.evaluating ≡ true)
      → IsLive (begin key (record r { microtasks = queue }))
  idle-IsLive busy = subst IsLive (sym (begin_idle busy)) (shrink-IsLive busy)

  begin-IsLive : IsLive (begin key (record r { microtasks = queue }))
  begin-IsLive = elim (Option-cases (lookup key r.auctions)) [
    | inl absent ↦ idle-IsLive (λ a found. absurd (ground arith))
    | inr (auction, there) ↦ elim (Bool-cases auction.evaluating) [
      | inl busy ↦ idle-IsLive (λ a found. ground arith)
      | inr waits ↦ subst IsLive (sym (begin_started auction there waits)) (
          insert-IsLive key (record auction { evaluating = true; timer = false }) r queue
            (λ e. absurd (ground arith)) rest-IsDue)
    ]
  ]

pub finish_present :
    (key : String) (settler : Settler) (outcome : Option BondAuctionEvaluation) (r : Registry)
    (a : AuctionState)
    → lookup key r.auctions ≡ some a
    → finish key settler outcome r ≡ record r {
      auctions = erase key r.auctions;
      resolved = r.resolved ++ answers key settler outcome a;
    }
unfolding finish
finish_present key settler outcome r a there = ground arith

finish_absent :
    (key : String) (settler : Settler) (outcome : Option BondAuctionEvaluation) (r : Registry)
    → lookup key r.auctions ≡ none
    → finish key settler outcome r ≡ r
unfolding finish
finish_absent key settler outcome r absent = ground arith

finish-IsLive :
    (key : String) (settler : Settler) (outcome : Option BondAuctionEvaluation) (r : Registry)
    → IsLive r
    → IsLive (finish key settler outcome r)
finish-IsLive key settler outcome r h = elim (Option-cases (lookup key r.auctions)) [
  | inl absent ↦ subst IsLive (sym (finish_absent key settler outcome r absent)) h
  | inr (auction, there) ↦
      subst IsLive (sym (finish_present key settler outcome r auction there))
        (λ k a found waits. h k a (ground (arith, lookup-erase key k r.auctions)) waits)
]

Runs-IsLive : {max_bids : ℕ} {tickets : List ℕ} {r : Registry} → Runs max_bids tickets r → IsLive r
Runs-IsLive started = λ k a found waits. cc
Runs-IsLive (submitted ticket bid run) = submit-IsLive _ ticket bid _ (Runs-IsLive run)
Runs-IsLive (timer_fired {r} key auction run found set_timer) =
    begin-IsLive key r.microtasks r (Runs-IsLive run) (λ k other m. m)
Runs-IsLive (microtask_ran {r} key rest run queue) =
    begin-IsLive key rest r (Runs-IsLive run) (λ k other m. shorter k other (subst (In k) queue m))
  where
    shorter : (k : String) → (key == k) ≡ false → In k (key ∷ rest) → In k rest
    shorter k other (inl e) = absurd (ground (arith, string_eq.same_iff key k))
    shorter k other (inr m) = m
Runs-IsLive (evaluated key auction settler outcome run found begun) =
    finish-IsLive key settler outcome _ (Runs-IsLive run)

-- Whatever happened to a registry, an auction in it that is not being evaluated has a timer that is
-- set or an evaluation that is queued.
pub Runs-due :
    {max_bids : ℕ} {tickets : List ℕ} {r : Registry}
    → Runs max_bids tickets r
    → (key : String) (auction : AuctionState) → lookup key r.auctions ≡ some auction
    → auction.evaluating ≡ false
    → (auction.timer ≡ true) ⊎ In key r.microtasks
Runs-due run key auction found waits = Runs-IsLive run key auction found waits
