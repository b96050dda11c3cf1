-- ===== src/Observer/Store/Snapshot/Fresh.antt =====
-- The shocks and the rate of messages in a snapshot of packages/observer/src/store.ts.
use federated_reserve.Prelude.{
  ℕ, ◌-◌, ◌≤◌, String, List, [], ◌∷◌, ◌≡◌, refl, sym, ap, true, false, not, ◌&&◌, Bool-cases, inl,
  inr, leb, ltb, length, select, All, arith, nat_eq, string_eq,
}
use federated_reserve.Prelude.Dict.{Dict, values}
use federated_reserve.Prelude.Sort.{All-sort}
use federated_reserve.Shared.Platform.{Platform}
use federated_reserve.Observer.Types.{ShockInjectedPayload}
use federated_reserve.Observer.Store.{ObserverStore}
use federated_reserve.Observer.Store.Negotiations.{before_cutoff}
use federated_reserve.Observer.Store.Operations.{gc, gc_shocks, shock_ttl_ms}
use federated_reserve.Observer.Store.Snapshot.{
  snapshot, shock_list, messages_per_minute, shift_before,
}

-- Times that are positive and do not go back.
abbrev pub Ascends : ℕ → List ℕ → Type 0
Ascends least [] = Unit
Ascends least (t ∷ ts) = (least ≤ t) × Ascends t ts

select-all :
    (cutoff least : ℕ) (ts : List ℕ)
    → cutoff ≤ least
    → Ascends least ts
    → select (λ t. leb cutoff t) ts ≡ ts
select-all cutoff least [] h a = refl
select-all cutoff least (t ∷ ts) h (l, a) =
    let later : leb cutoff t ≡ true = ground (arith, h, l) in
    rw (later, select-all cutoff t ts (omega (arith, h, l)) a) refl

shift_before-select :
    (cutoff least : ℕ) (ts : List ℕ)
    → 1 ≤ least
    → Ascends least ts
    → shift_before cutoff ts ≡ select (λ t. leb cutoff t) ts
unfolding shift_before
shift_before-select cutoff least [] h a = refl
shift_before-select cutoff least (t ∷ ts) h (l, a) = elim (Bool-cases (ltb t cutoff)) [
  | inl old ↦
      let positive : not (leb t 0) ≡ true = ground (arith, h, l) in
      let dropped : leb cutoff t ≡ false = ground (arith, old) in
      rw (positive, old, dropped) (shift_before-select cutoff t ts (omega (arith, h, l)) a)
  | inr new ↦
      let stays : (not (leb t 0) && ltb t cutoff) ≡ false = ground (arith, new) in
      rw stays (sym (select-all cutoff t (t ∷ ts) (ground (arith, new)) (omega arith, a)))
]

-- Not before the cutoff.
abbrev pub IsFresh : Platform → ℕ → ShockInjectedPayload → Type 0
IsFresh p cutoff shock = before_cutoff (p.time_of shock.emitted_at) cutoff ≡ false

gc-All :
    (p : Platform) (cutoff : ℕ) (m : Dict String ShockInjectedPayload)
    → All (IsFresh p cutoff) (values (gc p cutoff m))
unfolding gc
gc-All p cutoff [] = tt
gc-All p cutoff ((key, shock) ∷ m) =
    elim (Bool-cases (before_cutoff (p.time_of shock.emitted_at) cutoff)) [
      | inl e ↦ rw e (gc-All p cutoff m)
      | inr e ↦ rw e (e, gc-All p cutoff m)
    ]

-- Where the clock has not gone back, a snapshot counts as the messages of the last minute those of
-- the remembered times that are not older than a minute; and no shock that it shows, nor any that
-- stays in the store, is older than half an hour.
pub snapshot-IsFresh :
    (p : Platform) (now : ℕ) (s : ObserverStore)
    → Ascends 1 s.event_times
    → ((snapshot p now s).1.metrics.messages_per_minute
        ≡ length (select (λ t. leb (now - 60000) t) s.event_times))
      × All (IsFresh p (now - shock_ttl_ms)) (snapshot p now s).1.shocks
      × All (IsFresh p (now - shock_ttl_ms)) (values (snapshot p now s).0.shocks)
unfolding snapshot messages_per_minute gc_shocks shock_list
snapshot-IsFresh p now s a = (
  ap length (shift_before-select (now - 60000) 1 s.event_times (omega arith) a),
  All-sort _ (IsFresh p (now - shock_ttl_ms)) _ (gc-All p (now - shock_ttl_ms) s.shocks),
  gc-All p (now - shock_ttl_ms) s.shocks,
)
