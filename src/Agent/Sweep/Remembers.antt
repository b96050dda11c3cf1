-- ===== src/Agent/Sweep/Remembers.antt =====
-- Which signals sweepNoaaShocksAndFanOut of packages/agent/src/tick.ts sends, and what it remembers.
use federated_reserve.Prelude.{
  ℕ, ◌+◌, ◌-◌, ◌≤◌, String, List, [], ◌++◌, ◌≡◌, ◌∙◌, sym, ap, subst, true, false, inl, inr, ◌||◌,
  ltb, leb, nat_eq, string_eq, Bool-cases, contains, length, drop, In, All, All-imp, All-In, ◌≢◌,
  arith, append-nil, length-append, drop-append, length-drop,
}
use federated_reserve.Prelude.Dict.{Dict}
use federated_reserve.Data.Scheduler.{ShockEvent}
use federated_reserve.Agent.Sweep.{
  CardEntry, Signal, SweepDeps, Sweep, group_by_fips, fan_out, forget, sweep,
}
use federated_reserve.Agent.Sweep.Groups.{
  contains-append_lists, IsSignal, length-group_by_fips, group_by_fips-Entries,
}
use federated_reserve.Agent.Sweep.Progress.{Has, fan_out-Has}

forget-added :
    (old added : List String) (id : String)
    → length added ≤ 48
    → contains id added ≡ true
    → contains id (forget (old ++ added)) ≡ true
unfolding forget
forget-added old added id few there =
    let ids : List String = old ++ added in
    let size : length ids ≡ length old + length added = length-append old added in
    elim (Bool-cases (ltb 64 (length ids))) [
      | inl e ↦ rw e (
          ap (contains id) (drop-append (length ids - 48) old added (omega (arith, size, few)))
          ∙ contains-append_lists id (drop (length ids - 48) old) added
          ∙ ground (arith, there))
      | inr e ↦ rw e (contains-append_lists id old added ∙ ground (arith, there))
    ]

length-forget : (ids : List String) → length (forget ids) ≤ 64
unfolding forget
length-forget ids = ground (arith, length-drop (length ids - 48) ids)

sweep-Has :
    (d : SweepDeps) (events : List ShockEvent) (cache : Dict String CardEntry)
    (recently : List String)
    → Has d recently events (length events) (
        fan_out d
          (group_by_fips recently events [])
          (record { cache = cache; recently = recently; signals = []; reports = [] }))
sweep-Has d events cache recently =
    let start : Sweep = record { cache = cache; recently = recently; signals = []; reports = [] } in
    let groups : Dict ℕ ShockEvent = group_by_fips recently events [] in
    let (grouped, _) = group_by_fips-Entries recently events events [] (λ e i. i) tt tt in
    let size : length groups ≤ length events =
      omega (arith, length-group_by_fips recently events events []) in
    let h : Has d recently events (0 + length groups) (fan_out d groups start) =
      fan_out-Has d recently events groups 0 start grouped (record {
        added = [];
        grown = sym (append-nil recently);
        few = omega arith;
        signalled = tt;
        remembered = tt;
      }) in
    record {
      added = h.added;
      grown = h.grown;
      few = omega (arith, h.few, size);
      signalled = h.signalled;
      remembered = h.remembered;
    }

-- Every signal goes to a known peer, and is of an event given that is not remembered.
pub sweep-signals :
    (d : SweepDeps) (events : List ShockEvent) (cache : Dict String CardEntry)
    (recently : List String)
    → All (IsSignal d recently events) (sweep d events cache recently).signals
unfolding sweep
sweep-signals d events cache recently =
    elim (Bool-cases (
      leb (length events) 0
      || (leb (length d.peers) 0 || leb (length (group_by_fips recently events [])) 0))) [
        | inl e ↦ rw e tt
        | inr e ↦ rw e (sweep-Has d events cache recently).signalled
      ]

-- With at most 48 events and at most 64 that are remembered, an event whose signal was answered is
-- remembered after the sweep, and again at most 64 are.
pub sweep-remembers :
    (d : SweepDeps) (events : List ShockEvent) (cache : Dict String CardEntry)
    (recently : List String)
    → length events ≤ 48
    → length recently ≤ 64
    → All
        (λ (e : ShockEvent). contains e.event_id (sweep d events cache recently).recently ≡ true)
        (sweep d events cache recently).reports
      × (length (sweep d events cache recently).recently ≤ 64)
unfolding sweep
sweep-remembers d events cache recently few bounded =
    let h = sweep-Has d events cache recently in
    let done : Sweep =
      fan_out d (group_by_fips recently events [])
        (record { cache = cache; recently = recently; signals = []; reports = [] }) in
    elim (Bool-cases (
      leb (length events) 0
      || (leb (length d.peers) 0 || leb (length (group_by_fips recently events [])) 0))) [
        | inl e ↦ rw e (tt, bounded)
        | inr e ↦ rw e (
          subst
              (λ ids.
                All (λ (x : ShockEvent). contains x.event_id (forget ids) ≡ true) done.reports)
              (sym h.grown)
              (All-imp _ _ done.reports
                (λ x k. forget-added recently h.added x.event_id (omega (arith, h.few, few)) k)
                h.remembered),
          length-forget done.recently,
        )
      ]

-- Of at most 48 events, with at most 64 that are remembered, one whose signal was answered with a
-- contribution in a sweep is not signalled again in the next sweep, whatever that is given.
pub sweep-never_repeats :
    (d next : SweepDeps) (events later : List ShockEvent) (cache : Dict String CardEntry)
    (recently : List String) (e : ShockEvent) (s : Signal)
    → length events ≤ 48
    → length recently ≤ 64
    → In e (sweep d events cache recently).reports
    → In s
        (sweep next later
          (sweep d events cache recently).cache
          (sweep d events cache recently).recently).signals
    → s.event.event_id ≢ e.event_id
sweep-never_repeats d next events later cache recently e s few bounded reported sent same =
    let (remembered, _) = sweep-remembers d events cache recently few bounded in
    let first : Sweep = sweep d events cache recently in
    let (_, new, _) =
      All-In _ (sweep next later first.cache first.recently).signals s
        (sweep-signals next later first.cache first.recently) sent in
    absurd (
      clash (
        sym (All-In _ first.reports e remembered reported)
        ∙ subst (λ id. contains id first.recently ≡ false) same new))
  where
    clash : true ≡ false → ⊥
    clash c = cc
