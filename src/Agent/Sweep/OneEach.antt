-- ===== src/Agent/Sweep/OneEach.antt =====
-- How many signals sweepNoaaShocksAndFanOut of packages/agent/src/tick.ts sends to a state.
use federated_reserve.Prelude.{
  ℕ, String, Option, none, some, List, [], ◌∷◌, ◌++◌, ◌≡◌, ◌∙◌, refl, sym, ap, subst, false, ◌⊎◌,
  inl, inr, ◌||◌, leb, nat_eq, string_eq, Bool-cases, contains, length, All, arith,
}
use federated_reserve.Prelude.Dict.{Dict, lookup, IsNodup, Entries}
use federated_reserve.Prelude.Distinct.{IsDistinct, contains-append, append-IsDistinct}
use federated_reserve.Shared.States.{StateInfo, lookup_state_by_fips}
use federated_reserve.Data.Scheduler.{ShockEvent}
use federated_reserve.Agent.Sweep.{
  CardEntry, Signal, SweepDeps, Sweep, group_by_fips, is_settled, send, send_found, inject_known,
  fan_out, sweep, resolve_peer,
}
use federated_reserve.Agent.Sweep.Groups.{IsSignal, fips_of, IsGroup, group_by_fips-Entries}
use federated_reserve.Agent.Sweep.Remembers.{sweep-signals}

-- The signals are as they were, or one more is sent, of this event.
abbrev Grows : ShockEvent → List Signal → List Signal → Type 0
Grows ev before after =
    (after ≡ before) ⊎ ((sg : Signal) × (sg.event ≡ ev) × (after ≡ before ++ sg ∷ []))

fips_of-append :
    (xs : List Signal) (sg : Signal)
    → fips_of (xs ++ sg ∷ []) ≡ fips_of xs ++ sg.event.state_fips ∷ []
fips_of-append [] sg = refl
fips_of-append (x ∷ xs) sg = ap (λ t. x.event.state_fips ∷ t) (fips_of-append xs sg)

-- None of these states has been signalled.
abbrev Apart : Dict ℕ ShockEvent → List ℕ → Type 0
Apart groups fs = Entries (λ k _. contains k fs ≡ false) groups

Apart-append :
    (f : ℕ) (groups : Dict ℕ ShockEvent) (fs : List ℕ)
    → lookup f groups ≡ none
    → Apart groups fs
    → Apart groups (fs ++ f ∷ [])
Apart-append f [] fs n a = tt
Apart-append f ((k, ev) ∷ groups) fs n (h, a) = (
  contains-append k f fs ∙ ground (arith, h, n, nat_eq.same_iff f k, nat_eq.same_iff k f),
  Apart-append f groups fs (ground (arith, n)) a,
)

module _ (d : SweepDeps) where
  send-Grows :
      (ev : ShockEvent) (target : String) (s : Sweep)
      → Grows ev s.signals (send d ev target s).signals
  unfolding send
  send-Grows ev target s =
      let signal : Signal = record { target = target; event = ev } in
      elim (Bool-cases (is_settled (d.call signal))) [
        | inl e ↦ rw e (inr (signal, refl, refl))
        | inr e ↦ rw e (inr (signal, refl, refl))
      ]

  inject_known-Grows :
      (ev : ShockEvent) (info : Option StateInfo) (s : Sweep)
      → Grows ev s.signals (inject_known d ev info s).signals
  unfolding inject_known send_found
  inject_known-Grows ev none s = inl refl
  inject_known-Grows ev (some info) s = found (resolve_peer d.cards d.now info.abbr d.peers s.cache)
    where
      found :
          (r : Dict String CardEntry × Option String)
          → Grows ev s.signals (send_found d ev r.1 (record s { cache = r.0 })).signals
      found (cache, none) = inl refl
      found (cache, some target) = elim (Bool-cases (contains target d.peers)) [
        | inl e ↦ rw e (send-Grows ev target (record s { cache = cache }))
        | inr e ↦ rw e (inl refl)
      ]

  fan_out-IsDistinct :
      (old : List String) (all : List ShockEvent) (groups : Dict ℕ ShockEvent) (s : Sweep)
      → Entries (IsGroup old all) groups
      → IsNodup groups
      → Apart groups (fips_of s.signals)
      → IsDistinct (fips_of s.signals)
      → IsDistinct (fips_of (fan_out d groups s).signals)
  unfolding fan_out
  fan_out-IsDistinct old all [] s g n a h = h
  fan_out-IsDistinct old all ((fips, ev) ∷ rest) s ((own, _), g) (n, ns) (new, a) h =
      elim (inject_known-Grows ev (lookup_state_by_fips fips) s) [
        | inl same ↦
            fan_out-IsDistinct old all rest _ g ns
              (subst (λ t. Apart rest (fips_of t)) (sym same) a)
              (subst (λ t. IsDistinct (fips_of t)) (sym same) h)
        | inr (sg, its, more) ↦
            let f : sg.event.state_fips ≡ fips = ap (λ (x : ShockEvent). x.state_fips) its ∙ own in
            let now : fips_of (inject_known d ev (lookup_state_by_fips fips) s).signals
                ≡ fips_of s.signals ++ fips ∷ [] =
              ap fips_of more
              ∙ fips_of-append s.signals sg
              ∙ ap (λ k. fips_of s.signals ++ k ∷ []) f in
            fan_out-IsDistinct old all rest _ g ns
              (subst (Apart rest) (sym now) (Apart-append fips rest (fips_of s.signals) n a))
              (subst IsDistinct (sym now) (append-IsDistinct fips (fips_of s.signals) new h))
      ]

Apart-none : (groups : Dict ℕ ShockEvent) → Apart groups []
Apart-none [] = tt
Apart-none ((k, ev) ∷ groups) = (refl, Apart-none groups)

-- A sweep sends each state at most one signal; every signal goes to a known peer, and is of one of
-- the events given that is not remembered as injected.
pub sweep-IsDistinct :
    (d : SweepDeps) (events : List ShockEvent) (cache : Dict String CardEntry)
    (recently : List String)
    → IsDistinct (fips_of (sweep d events cache recently).signals)
      × All (IsSignal d recently events) (sweep d events cache recently).signals
unfolding sweep
sweep-IsDistinct d events cache recently =
    let (grouped, nodup) = group_by_fips-Entries recently events events [] (λ e i. i) tt tt in
    let groups : Dict ℕ ShockEvent = group_by_fips recently events [] in
    (
      elim (Bool-cases
          (leb (length events) 0 || (leb (length d.peers) 0 || leb (length groups) 0))) [
            | inl e ↦ rw e tt
            | inr e ↦
                rw e (
                  fan_out-IsDistinct d recently events groups _ grouped nodup (Apart-none groups)
                    tt)
          ],
      sweep-signals d events cache recently,
    )
