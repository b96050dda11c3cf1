-- ===== src/Data/Scheduler/Sources.antt =====
-- Which source a value in the cache of packages/data-plane/src comes from.
use federated_reserve.Prelude.{
  ℕ, String, Option, none, some, List, [], ◌∷◌, ◌≡◌, ◌∙◌, refl, sym, ap, subst, true, false,
  if◌then◌else◌, ◌==◌, nat_eq, string_eq, ◌>>=◌, Bool-cases, inl, inr, arith, is_some,
}
use federated_reserve.Prelude.Dict.{
  Dict, lookup, insert, lookup-insert, insert-IsNodup, values, IsNodup, Entries, insert-Entries,
  lookup-Entries,
}
use federated_reserve.Shared.Platform.{Platform}
use federated_reserve.Shared.States.{StateInfo, lookup_state_by_fips}
use federated_reserve.Data.Scheduler.{
  Observation, Indicators, StateSnapshot, spread, set_many, merged, put, merge_found,
  merge_into_state_snapshots, Answers, brought, gather, refresh_once, Scheduler, prune_failures,
}

-- `a`, or `b` where there is no `a`.
abbrev pub or_instead {ℓ} : {A : Type ℓ} → Option A → Option A → Option A
or_instead none b = b
or_instead (some a) b = some a

-- What a source says of a state, and a map of snapshots of it.
abbrev pub said : ℕ → String → Dict ℕ Indicators → Option Observation
said fips kind per = lookup fips per >>= (λ ind. lookup kind ind)

abbrev pub observed : ℕ → String → Dict ℕ StateSnapshot → Option Observation
observed fips kind m = lookup fips m >>= (λ s. lookup kind s.indicators)

spread-lookup :
    (kind : String) (a b : Indicators)
    → IsNodup b
    → lookup kind (spread a b) ≡ or_instead (lookup kind b) (lookup kind a)
unfolding spread
spread-lookup kind a [] n = refl
spread-lookup kind a ((k, o) ∷ b) (n, ns) =
    spread-lookup kind (insert k o a) b ns
    ∙ ap (or_instead (lookup kind b)) (lookup-insert k kind o a)
    ∙ elim (Bool-cases (k == kind)) [
      | inl same ↦
          let none_after : lookup kind b ≡ none =
            subst (λ z. lookup z b ≡ none) ((string_eq.same_iff k kind).0 same) n in
          rw (same, none_after) refl
      | inr other ↦ rw other refl
    ]

-- Each state is listed once, and each of its values once.
pub record IsProper (per : Dict ℕ Indicators) : Type 0 where
  pub states : IsNodup per
  pub kinds : Entries (λ _ ind. IsNodup ind) per

module _ (now : String) where
  merged-value :
      (fips : ℕ) (kind : String) (ind : Indicators) (info : Option StateInfo)
      (old : Option StateSnapshot)
      → is_some info ≡ true
      → IsNodup ind
      → (merged now fips ind info old >>= (λ s. lookup kind s.indicators))
        ≡ or_instead (lookup kind ind) (old >>= (λ s. lookup kind s.indicators))
  unfolding merged merge_found
  merged-value fips kind ind info (some existing) h n = spread-lookup kind existing.indicators ind n
  merged-value fips kind ind (some i) none h n = whole (lookup kind ind)
    where
      whole : (o : Option Observation) → o ≡ or_instead o none
      whole none = refl
      whole (some v) = refl
  merged-value fips kind ind none none h n = cc

  merged-is_some :
      (fips : ℕ) (ind : Indicators) (info : Option StateInfo) (old : Option StateSnapshot)
      → is_some info ≡ true
      → is_some (merged now fips ind info old) ≡ true
  unfolding merged
  merged-is_some fips ind info (some existing) h = refl
  merged-is_some fips ind (some i) none h = refl
  merged-is_some fips ind none none h = cc

  lookup-put_same :
      (fips : ℕ) (o : Option StateSnapshot) (m : Dict ℕ StateSnapshot)
      → is_some o ≡ true
      → lookup fips (put fips o m) ≡ o
  lookup-put_same fips none m h = cc
  lookup-put_same fips (some s) m h =
      lookup-insert fips fips s m ∙ ground (arith, nat_eq.same_iff fips fips)

  lookup-put_other :
      (fips f : ℕ) (o : Option StateSnapshot) (m : Dict ℕ StateSnapshot)
      → (fips == f) ≡ false
      → lookup f (put fips o m) ≡ lookup f m
  lookup-put_other fips f none m h = refl
  lookup-put_other fips f (some s) m h = lookup-insert fips f s m ∙ rw h refl

  put-observed_same :
      (fips : ℕ) (kind : String) (ind : Indicators) (info : Option StateInfo)
      (target : Dict ℕ StateSnapshot)
      → is_some info ≡ true
      → IsNodup ind
      → observed fips kind (put fips (merged now fips ind info (lookup fips target)) target)
        ≡ or_instead (lookup kind ind) (observed fips kind target)
  put-observed_same fips kind ind info target known n =
      ap (λ o. o >>= (λ s. lookup kind s.indicators))
        (lookup-put_same fips _ target (merged-is_some fips ind info (lookup fips target) known))
      ∙ merged-value fips kind ind info (lookup fips target) known n

  -- A source that is merged in has the first word on the states that the registry knows.
  pub merge-observed :
      (f : ℕ) (kind : String) (target : Dict ℕ StateSnapshot) (per : Dict ℕ Indicators)
      → is_some (lookup_state_by_fips f) ≡ true
      → IsNodup per
      → Entries (λ _ ind. IsNodup ind) per
      → observed f kind (merge_into_state_snapshots now target per)
        ≡ or_instead (said f kind per) (observed f kind target)
  unfolding merge_into_state_snapshots
  merge-observed f kind target [] known n e = refl
  merge-observed f kind target ((fips, ind) ∷ rest) known (n, ns) (d, ds) =
      merge-observed f kind next rest known ns ds ∙ elim (Bool-cases (fips == f)) [
        | inl same ↦
            let e : fips ≡ f = (nat_eq.same_iff fips f).0 same in
            let here : (fips == fips) ≡ true = (nat_eq.same_iff fips fips).1 refl in
            let known_here : is_some (lookup_state_by_fips fips) ≡ true =
              subst (λ z. is_some (lookup_state_by_fips z) ≡ true) (sym e) known in
            subst
              (λ z.
                or_instead (said z kind rest) (observed z kind next)
                ≡ or_instead (said z kind ((fips, ind) ∷ rest)) (observed z kind target))
              e
              (rw (n, here)
                (put-observed_same fips kind ind (lookup_state_by_fips fips) target known_here d))
        | inr other ↦ rw other (
            ap (λ o. or_instead (said f kind rest) (o >>= (λ s. lookup kind s.indicators)))
              (lookup-put_other fips f _ target other))
      ]
    where
      next : Dict ℕ StateSnapshot
      next = put fips (merged now fips ind (lookup_state_by_fips fips) (lookup fips target)) target

-- The snapshots of a map stand under the number of their state.
abbrev pub IsKeyed : Dict ℕ StateSnapshot → Type 0
IsKeyed m = IsNodup m × Entries (λ fips s. s.state_fips ≡ fips) m

set_many-IsKeyed :
    (xs : List StateSnapshot) (m : Dict ℕ StateSnapshot) → IsKeyed m → IsKeyed (set_many xs m)
unfolding set_many
set_many-IsKeyed [] m h = h
set_many-IsKeyed (s ∷ xs) m (n, e) =
    set_many-IsKeyed xs (insert s.state_fips s m)
      (insert-IsNodup s.state_fips s m n, insert-Entries _ s.state_fips s m refl e)

module _ (now : String) where
  put-IsKeyed :
      (fips : ℕ) (ind : Indicators) (info : Option StateInfo) (old : Option StateSnapshot)
      (m : Dict ℕ StateSnapshot)
      → lookup fips m ≡ old
      → IsKeyed m
      → IsKeyed (put fips (merged now fips ind info old) m)
  unfolding merged merge_found
  put-IsKeyed fips ind info (some existing) m found (n, e) = (
    insert-IsNodup fips _ m n,
    insert-Entries _ fips _ m (lookup-Entries _ fips existing m e found) e,
  )
  put-IsKeyed fips ind (some i) none m found (n, e) =
      (insert-IsNodup fips _ m n, insert-Entries _ fips _ m refl e)
  put-IsKeyed fips ind none none m found h = h

  merge-IsKeyed :
      (target : Dict ℕ StateSnapshot) (per : Dict ℕ Indicators)
      → IsKeyed target
      → IsKeyed (merge_into_state_snapshots now target per)
  unfolding merge_into_state_snapshots
  merge-IsKeyed target [] h = h
  merge-IsKeyed target ((fips, ind) ∷ rest) h =
      merge-IsKeyed
        (put fips (merged now fips ind (lookup_state_by_fips fips) (lookup fips target)) target)
        rest (put-IsKeyed fips ind (lookup_state_by_fips fips) (lookup fips target) target refl h)

  pub gather-IsKeyed : (a : Answers) → IsKeyed (gather now a)
  unfolding gather
  gather-IsKeyed a = merge-IsKeyed _ (brought a.census) (
      merge-IsKeyed _ (brought a.bea)
        (merge-IsKeyed _ (brought a.bls) (set_many-IsKeyed (brought a.fred) [] (tt, tt))))

set_many-lookup :
    (f : ℕ) (m c : Dict ℕ StateSnapshot)
    → IsKeyed m
    → lookup f (set_many (values m) c) ≡ or_instead (lookup f m) (lookup f c)
unfolding set_many
set_many-lookup f [] c h = refl
set_many-lookup f ((fips, s) ∷ m) c ((n, ns), (k, e)) =
    set_many-lookup f m (insert s.state_fips s c) (ns, e)
    ∙ ap (or_instead (lookup f m)) (lookup-insert s.state_fips f s c)
    ∙ ap (λ i. or_instead (lookup f m) (if i == f then some s else lookup f c)) k
    ∙ elim (Bool-cases (fips == f)) [
      | inl same ↦
          let gone : lookup f m ≡ none =
            subst (λ z. lookup z m ≡ none) ((nat_eq.same_iff fips f).0 same) n in
          rw (same, gone) refl
      | inr other ↦ rw other refl
    ]

-- The answers of the sources that come as maps.
pub record AreProper (a : Answers) : Type 0 where
  pub bls : IsProper (brought a.bls)
  pub bea : IsProper (brought a.bea)
  pub census : IsProper (brought a.census)

-- A refresh that is not overlapped gives each state the snapshot that it gathers, if it gathers
-- one, and leaves it the old one otherwise. The value of a kind in what it gathers of a state that
-- the registry knows is that of Census, else of BEA, else of BLS, else of FRED: no value of an
-- earlier refresh stays in a snapshot that is replaced.
pub refresh_once-serves :
    (p : Platform) (soft : List String → String) (now : ℕ) (a : Answers) (s : Scheduler) (f : ℕ)
    (kind : String)
    → s.inflight ≡ false
    → is_some (lookup_state_by_fips f) ≡ true
    → AreProper a
    → (lookup f (refresh_once p soft now a s).cache
        ≡ or_instead (lookup f (gather (p.iso_string now) a)) (lookup f s.cache))
      × (observed f kind (gather (p.iso_string now) a)
          ≡ or_instead (said f kind (brought a.census)) (
              or_instead (said f kind (brought a.bea)) (
                or_instead
                  (said f kind (brought a.bls))
                  (observed f kind (set_many (brought a.fred) [])))))
unfolding refresh_once prune_failures gather
refresh_once-serves p soft now a s f kind free known h =
    let time : String = p.iso_string now in
    (
      rw free (set_many-lookup f (gather time a) s.cache (gather-IsKeyed time a)),
      merge-observed time f kind _ (brought a.census) known h.census.states h.census.kinds
          ∙ ap (or_instead (said f kind (brought a.census))) (
              merge-observed time f kind _ (brought a.bea) known h.bea.states h.bea.kinds
              ∙ ap (or_instead (said f kind (brought a.bea)))
                  (merge-observed time f kind _ (brought a.bls) known h.bls.states h.bls.kinds)),
    )
