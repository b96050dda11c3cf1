-- ===== src/Agent/Sweep/Progress.antt =====
-- What a sweep of packages/agent/src/tick.ts has done after some of its groups.
use federated_reserve.Prelude.{
  ℕ, suc, ◌+◌, ◌≤◌, String, Option, none, some, List, [], ◌∷◌, ◌++◌, ◌≡◌, ◌∙◌, refl, ap, subst,
  true, false, inl, inr, if◌then◌else◌, nat_eq, string_eq, Bool-cases, contains, length, All,
  All-append, All-imp, arith, append_assoc, length-append,
}
use federated_reserve.Prelude.Dict.{Dict, Entries}
use federated_reserve.Prelude.Distinct.{contains-append}
use federated_reserve.Shared.States.{StateInfo, lookup_state_by_fips}
use federated_reserve.Data.Scheduler.{ShockEvent}
use federated_reserve.Agent.Sweep.{
  CardEntry, Signal, SweepDeps, Sweep, add_id, is_settled, send, send_found, inject_known, fan_out,
  resolve_peer,
}
use federated_reserve.Agent.Sweep.Groups.{contains-append_lists, IsNew, IsSignal, IsGroup}

-- What a sweep that began with `old` has done after `n` of its groups.
pub record Has (d : SweepDeps) (old : List String) (all : List ShockEvent) (n : ℕ) (s : Sweep)
    : Type 0 where
  pub added : List String
  pub grown : s.recently ≡ old ++ added
  pub few : length added ≤ n
  pub signalled : All (IsSignal d old all) s.signals
  pub remembered : All (λ (e : ShockEvent). contains e.event_id added ≡ true) s.reports

module _ (d : SweepDeps) (old : List String) (all : List ShockEvent) where
  Has-weaken : (n : ℕ) (s : Sweep) → Has d old all n s → Has d old all (suc n) s
  Has-weaken n s h = record {
    added = h.added;
    grown = h.grown;
    few = omega (arith, h.few);
    signalled = h.signalled;
    remembered = h.remembered;
  }

  -- An identifier that is added, if it is not there, to what was added.
  added_after : (id : String) → List String → List String
  added_after id added = if contains id added then added else added ++ id ∷ []

  add_id-grown :
      (id : String) (added : List String)
      → contains id old ≡ false
      → add_id id (old ++ added) ≡ old ++ added_after id added
  unfolding add_id added_after
  add_id-grown id added new =
      let here : contains id (old ++ added) ≡ contains id added =
        contains-append_lists id old added ∙ rw new refl in
      elim (Bool-cases (contains id added)) [
        | inl e ↦ rw (here, e) refl
        | inr e ↦ rw (here, e) (append_assoc old added (id ∷ []))
      ]

  length-added_after :
      (id : String) (added : List String) → length (added_after id added) ≤ suc (length added)
  unfolding added_after
  length-added_after id added = ground (arith, length-append added (id ∷ []))

  contains-added_after_self :
      (id : String) (added : List String) → contains id (added_after id added) ≡ true
  unfolding added_after
  contains-added_after_self id added = elim (Bool-cases (contains id added)) [
    | inl e ↦ rw e e
    | inr e ↦ rw e (contains-append id id added ∙ ground (arith, e, string_eq.same_iff id id))
  ]

  contains-added_after :
      (a id : String) (added : List String)
      → contains a added ≡ true
      → contains a (added_after id added) ≡ true
  unfolding added_after
  contains-added_after a id added h = elim (Bool-cases (contains id added)) [
    | inl e ↦ rw e h
    | inr e ↦ rw e (contains-append a id added ∙ rw h refl)
  ]

  send-Has :
      (ev : ShockEvent) (target : String) (n : ℕ) (s : Sweep)
      → contains target d.peers ≡ true
      → IsNew old all ev
      → Has d old all n s
      → Has d old all (suc n) (send d ev target s)
  unfolding send
  send-Has ev target n s known (new, there) h =
      let signal : Signal = record { target = target; event = ev } in
      let signals = All-append _ s.signals (signal ∷ []) h.signalled ((known, new, there), tt) in
      elim (Bool-cases (is_settled (d.call signal))) [
        | inl e ↦ rw e (record {
          added = added_after ev.event_id h.added;
          grown = ap (add_id ev.event_id) h.grown ∙ add_id-grown ev.event_id h.added new;
          few = omega (arith, h.few, length-added_after ev.event_id h.added);
          signalled = signals;
          remembered =
              All-append _ s.reports (ev ∷ [])
                (All-imp _ _ s.reports
                  (λ a k. contains-added_after a.event_id ev.event_id h.added k) h.remembered)
                (contains-added_after_self ev.event_id h.added, tt);
        })
        | inr e ↦ rw e (record {
          added = h.added;
          grown = h.grown;
          few = omega (arith, h.few);
          signalled = signals;
          remembered = h.remembered;
        })
      ]

  inject_known-Has :
      (ev : ShockEvent) (info : Option StateInfo) (n : ℕ) (s : Sweep)
      → IsNew old all ev
      → Has d old all n s
      → Has d old all (suc n) (inject_known d ev info s)
  unfolding inject_known send_found
  inject_known-Has ev none n s new h = Has-weaken n s h
  inject_known-Has ev (some info) n s new h =
      found (resolve_peer d.cards d.now info.abbr d.peers s.cache)
    where
      same : (cache : Dict String CardEntry) → Has d old all n (record s { cache = cache })
      same cache = record {
        added = h.added;
        grown = h.grown;
        few = h.few;
        signalled = h.signalled;
        remembered = h.remembered;
      }

      found :
          (r : Dict String CardEntry × Option String)
          → Has d old all (suc n) (send_found d ev r.1 (record s { cache = r.0 }))
      found (cache, none) = Has-weaken n _ (same cache)
      found (cache, some target) = elim (Bool-cases (contains target d.peers)) [
        | inl e ↦ rw e (send-Has ev target n _ e new (same cache))
        | inr e ↦ rw e (Has-weaken n _ (same cache))
      ]

  pub fan_out-Has :
      (groups : Dict ℕ ShockEvent) (n : ℕ) (s : Sweep)
      → Entries (IsGroup old all) groups
      → Has d old all n s
      → Has d old all (n + length groups) (fan_out d groups s)
  unfolding fan_out
  fan_out-Has [] n s g h = subst (λ m. Has d old all m s) (omega arith) h
  fan_out-Has ((fips, ev) ∷ rest) n s ((_, new), g) h =
      subst (λ m. Has d old all m (fan_out d ((fips, ev) ∷ rest) s)) (the_suc n (length rest))
        (fan_out-Has rest (suc n) _ g (inject_known-Has ev (lookup_state_by_fips fips) n s new h))
    where
      the_suc : (a b : ℕ) → suc a + b ≡ a + suc b
      the_suc a b = omega arith
