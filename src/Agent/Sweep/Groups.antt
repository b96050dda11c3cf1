-- ===== src/Agent/Sweep/Groups.antt =====
-- The events that sweepNoaaShocksAndFanOut of packages/agent/src/tick.ts chooses.
use federated_reserve.Prelude.{
  ℕ, ◌+◌, ◌≤◌, String, List, [], ◌∷◌, ◌++◌, ◌≡◌, refl, true, false, inl, inr, if◌then◌else◌, nat_eq,
  string_eq, Bool-cases, Eq, contains, length, In, map, arith,
}
use federated_reserve.Prelude.Dict.{
  Dict, lookup, insert, length-insert, IsNodup, insert-IsNodup, Entries, insert-Entries,
}
use federated_reserve.Data.Scheduler.{ShockEvent}
use federated_reserve.Agent.Sweep.{Signal, SweepDeps, is_worse, group_by_fips}

pub contains-append_lists {ℓ} :
    {A : Type ℓ} ⦃e : Eq A⦄ (a : A) (xs ys : List A)
    → contains a (xs ++ ys) ≡ (if contains a xs then true else contains a ys)
contains-append_lists a [] ys = refl
contains-append_lists a (x ∷ xs) ys = ground (arith, contains-append_lists a xs ys)

-- An event that has not been injected, of those that the sweep looks at.
abbrev pub IsNew : List String → List ShockEvent → ShockEvent → Type 0
IsNew recently events ev = (contains ev.event_id recently ≡ false) × In ev events

-- A signal to a known peer, of an event that is new.
abbrev pub IsSignal : SweepDeps → List String → List ShockEvent → Signal → Type 0
IsSignal d recently events s =
    (contains s.target d.peers ≡ true)
    × (contains s.event.event_id recently ≡ false)
    × In s.event events

abbrev pub fips_of : List Signal → List ℕ
fips_of signals = map (λ s. s.event.state_fips) signals

module _ (recently : List String) (all : List ShockEvent) where
  abbrev pub IsGroup : ℕ → ShockEvent → Type 0
  IsGroup fips ev = (ev.state_fips ≡ fips) × IsNew recently all ev

  pub length-group_by_fips :
      (events : List ShockEvent) (m : Dict ℕ ShockEvent)
      → length (group_by_fips recently events m) ≤ length m + length events
  unfolding group_by_fips
  length-group_by_fips [] m = omega arith
  length-group_by_fips (ev ∷ events) m = ground (
    arith,
    length-group_by_fips events m,
    length-insert ev.state_fips ev m,
    length-group_by_fips events (insert ev.state_fips ev m),
  )

  pub group_by_fips-Entries :
      (events : List ShockEvent) (m : Dict ℕ ShockEvent)
      → ((ev : ShockEvent) → In ev events → In ev all)
      → Entries IsGroup m
      → IsNodup m
      → Entries IsGroup (group_by_fips recently events m)
        × IsNodup (group_by_fips recently events m)
  unfolding group_by_fips
  group_by_fips-Entries [] m sub h n = (h, n)
  group_by_fips-Entries (ev ∷ events) m sub h n =
      elim (Bool-cases (contains ev.event_id recently)) [
        | inl old ↦ rw old (group_by_fips-Entries events m later h n)
        | inr new ↦ elim (Bool-cases (is_worse ev (lookup ev.state_fips m))) [
          | inl worse ↦
              rw (new, worse)
                (group_by_fips-Entries events (insert ev.state_fips ev m) later
                  (insert-Entries IsGroup ev.state_fips ev m (refl, (new, sub ev (inl refl))) h)
                  (insert-IsNodup ev.state_fips ev m n))
          | inr milder ↦ rw (new, milder) (group_by_fips-Entries events m later h n)
        ]
      ]
    where
      later : (e : ShockEvent) → In e events → In e all
      later e i = sub e (inr i)
