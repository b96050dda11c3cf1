-- ===== src/Observer/Store/Negotiations/Trim.antt =====
-- What trimNegotiations of packages/observer/src/store.ts deletes and what it leaves.
use federated_reserve.Prelude.{
  ℕ, suc, ◌-◌, ◌≤◌, ◌<◌, min, String, none, some, [], ◌∷◌, ◌≡◌, ◌∙◌, sym, subst, true, false,
  Bool-cases, inl, inr, ◌==◌, nat_eq, string_eq, arith, ◌⊎◌, leb, length, some-injective,
}
use federated_reserve.Prelude.Dict.{
  Dict, lookup, erase, IsNodup, Entries, lookup-erase, erase-IsNodup,
}
use federated_reserve.Prelude.Sort.{sort, length-sort}
use federated_reserve.Prelude.DictSort.{
  lookup-sort, sort-IsNodup, length-erase_found, IsPart, IsPart-self, IsPart-erase, IsPart-same,
}
use federated_reserve.Shared.Platform.{Platform}
use federated_reserve.Observer.Types.{NegotiationView}
use federated_reserve.Observer.Store.Negotiations.{
  trim_oldest, trim_negotiations, is_spent, negotiation_cap, negotiation_ttl_ms, older,
}

module _ (p : Platform) where
  -- What becomes of a negotiation: it stays as it is, or it is spent and is deleted.
  abbrev pub IsFate : ℕ → Dict String NegotiationView → String → NegotiationView → Type 0
  IsFate cutoff left id view =
      (lookup id left ≡ some view) ⊎ ((lookup id left ≡ none) × (is_spent p cutoff view ≡ true))

  -- A negotiation that is left and is not spent.
  abbrev pub LeavesFresh : ℕ → Dict String NegotiationView → Type 0
  LeavesFresh cutoff left =
      (id : String) × (view : NegotiationView) × (lookup id left ≡ some view)
      × (is_spent p cutoff view ≡ false)

  -- What a trim makes of the map `views`.
  abbrev IsCut : ℕ → Dict String NegotiationView → Dict String NegotiationView → Type 0
  IsCut cutoff views left =
      ((id : String) (view : NegotiationView)
        → lookup id views ≡ some view
        → IsFate cutoff left id view)
      × ((id : String) → lookup id views ≡ none → lookup id left ≡ none)
      × (min negotiation_cap (length views) ≤ length left)
      × ((length left ≤ negotiation_cap) ⊎ LeavesFresh cutoff left)

  -- What becomes of the others once `id` is deleted becomes of all.
  IsFate-erase :
      (cutoff : ℕ) (id i : String) (view v : NegotiationView)
      (views left : Dict String NegotiationView)
      → is_spent p cutoff view ≡ true
      → lookup id views ≡ some view
      → ((j : String) (w : NegotiationView)
          → lookup j (erase id views) ≡ some w
          → IsFate cutoff left j w)
      → ((j : String) → lookup j (erase id views) ≡ none → lookup j left ≡ none)
      → lookup i views ≡ some v
      → IsFate cutoff left i v
  IsFate-erase cutoff id i view v views left spent found fates gone known =
      elim (Bool-cases (id == i)) [
        | inl same ↦
            let equal : id ≡ i = (string_eq.same_iff id i).0 same in
            let one : view ≡ v =
              some-injective view v
                (sym found ∙ subst (λ z. lookup z views ≡ some v) (sym equal) known) in
            inr (
              gone i (lookup-erase id i views ∙ ground (arith, same)),
              subst (λ z. is_spent p cutoff z ≡ true) one spent,
            )
        | inr other ↦ fates i v (lookup-erase id i views ∙ ground (arith, other, known))
      ]

  trim_oldest-IsCut :
      (cutoff : ℕ) (entries views : Dict String NegotiationView)
      → length entries ≡ length views
      → IsNodup entries
      → IsNodup views
      → IsPart entries views
      → IsCut cutoff views (trim_oldest p cutoff entries views)
  unfolding trim_oldest
  trim_oldest-IsCut cutoff [] views size n ns h =
      ((λ id view known. inl known), (λ id gone. gone), omega arith, inl (omega (arith, size)))
  trim_oldest-IsCut cutoff ((id, view) ∷ rest) views size (n, ne) ns (found, h) =
      elim (Bool-cases (leb (length views) negotiation_cap)) [
        | inl few ↦
            rw few
              ((λ i v known. inl known), (λ i gone. gone), omega arith, inl (ground (arith, few)))
        | inr many ↦ elim (Bool-cases (is_spent p cutoff view)) [
          | inr fresh ↦
              rw (many, fresh)
                (
                  (λ i v known. inl known),
                  (λ i gone. gone),
                  omega arith,
                  inr (id, view, found, fresh),
                )
          | inl spent ↦
              let less : suc (length (erase id views)) ≡ length views =
                length-erase_found id view views ns found in
              let over : negotiation_cap < length views = ground (arith, many) in
              let (fates, gone, size_left, why) =
                trim_oldest-IsCut cutoff rest (erase id views) (omega (arith, size, less)) ne
                  (erase-IsNodup id views ns) (IsPart-erase id rest views n h) in
              rw (many, spent)
                (
                  (λ i v known.
                      IsFate-erase cutoff id i view v views _ spent found fates gone known),
                  (λ i none_there. gone i (lookup-erase id i views ∙ ground (arith, none_there))),
                  omega (arith, size_left, less, over),
                  why,
                )
        ]
      ]

  -- A trim of the negotiations deletes only what is closed or out of date and leaves the rest as it
  -- is; it does not go below the cap, and where more than the cap stay, one that is open and up to
  -- date stays.
  pub trim_negotiations-IsTrimmed :
      (now : ℕ) (views : Dict String NegotiationView)
      → IsNodup views
      → Entries (IsFate (now - negotiation_ttl_ms) (trim_negotiations p now views)) views
        × (min negotiation_cap (length views) ≤ length (trim_negotiations p now views))
        × ((length (trim_negotiations p now views) ≤ negotiation_cap)
            ⊎ LeavesFresh (now - negotiation_ttl_ms) (trim_negotiations p now views))
  unfolding trim_negotiations
  trim_negotiations-IsTrimmed now views n = elim (Bool-cases (leb (length views) negotiation_cap)) [
    | inl few ↦ rw few (
      fated views views (λ i v known. inl known) (IsPart-self views n),
      omega arith,
      inl (ground (arith, few)),
    )
    | inr many ↦
        let sorted : Dict String NegotiationView = sort (older p) views in
        let (fates, gone, size, why) =
          trim_oldest-IsCut (now - negotiation_ttl_ms) sorted views (length-sort (older p) views)
            (sort-IsNodup (older p) views n) n
            (IsPart-same sorted sorted views (λ k. sym (lookup-sort (older p) k views n))
              (IsPart-self sorted (sort-IsNodup (older p) views n))) in
        rw many (fated views _ fates (IsPart-self views n), size, why)
  ]
    where
      fated :
          (part left : Dict String NegotiationView)
          → ((id : String) (view : NegotiationView)
              → lookup id views ≡ some view
              → IsFate (now - negotiation_ttl_ms) left id view)
          → IsPart part views
          → Entries (IsFate (now - negotiation_ttl_ms) left) part
      fated [] left f h = tt
      fated ((id, view) ∷ part) left f (found, h) = (f id view found, fated part left f h)
