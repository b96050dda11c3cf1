-- ===== src/Observer/Store/Negotiations/Coherent.antt =====
-- What a negotiation in the store of packages/observer/src/store.ts says of its rounds.
use federated_reserve.Prelude.{
  ℕ, String, Option, none, some, List, [], ◌∷◌, ◌++◌, ◌≡◌, ◌∙◌, refl, sym, ap, true, if◌then◌else◌,
  Bool-cases, Option-cases, inl, inr, All, All-append, All-imp, contains, last, last-snoc, first,
  ◌>>=◌, nat_eq, string_eq, arith, ◌⊎◌, leb, length,
}
use federated_reserve.Prelude.Dict.{
  Dict, lookup, erase, Entries, insert-Entries, erase-Entries, lookup-Entries,
}
use federated_reserve.Prelude.Distinct.{IsDistinct, contains-append, append-IsDistinct}
use federated_reserve.Shared.Platform.{Platform}
use federated_reserve.Observer.Types.{
  NegotiationRoundPayload, NegotiationStatus, opened, NegotiationView,
}
use federated_reserve.Observer.Store.Negotiations.{
  terminal_stage, settlement_status, join, join_known, open_view, add_round, view_after,
  record_round, trim_oldest, trim_negotiations, is_spent, negotiation_cap,
}

-- The status that a sequence of rounds leaves: that of the last round that is terminal.
abbrev pub status_after : NegotiationStatus → List NegotiationRoundPayload → NegotiationStatus
status_after status [] = status
status_after status (r ∷ rs) =
    status_after (if terminal_stage r.stage then settlement_status r.stage else status) rs

abbrev Addressed : List ℕ → Option ℕ → Type 0
Addressed participants none = Unit
Addressed participants (some fips) = contains fips participants ≡ true

-- Who speaks and who is spoken to in a round takes part.
abbrev pub TakesPart : List ℕ → NegotiationRoundPayload → Type 0
TakesPart participants r =
    (contains r.from_fips participants ≡ true) × Addressed participants r.to_fips

-- A negotiation as its rounds make it.
pub record IsCoherent (id : String) (view : NegotiationView) : Type 0 where
  pub named : All (λ (r : NegotiationRoundPayload). r.task_id ≡ id) view.rounds
  pub concluded : view.status ≡ status_after opened view.rounds
  pub dated : (last view.rounds >>= (λ r. some r.emitted_at)) ≡ some view.last_at
  pub begun : (first view.rounds >>= (λ r. some r.emitted_at)) ≡ some view.started_at
  pub attended : All (TakesPart view.participants) view.rounds
  pub once : IsDistinct view.participants

status_after-snoc :
    (s : NegotiationStatus) (rs : List NegotiationRoundPayload) (r : NegotiationRoundPayload)
    → status_after s (rs ++ r ∷ [])
      ≡ (if terminal_stage r.stage then settlement_status r.stage else status_after s rs)
status_after-snoc s [] r = refl
status_after-snoc s (q ∷ rs) r = status_after-snoc _ rs r

first-snoc {ℓ} :
    {A : Type ℓ} (xs : List A) (x y : A) → first xs ≡ some y → first (xs ++ x ∷ []) ≡ some y
first-snoc [] x y h = cc
first-snoc (z ∷ xs) x y h = h

contains-join_self : (x : ℕ) (xs : List ℕ) → contains x (join x xs) ≡ true
contains-join_self x xs = ground (arith, contains-append x x xs)

contains-join : (a x : ℕ) (xs : List ℕ) → contains a xs ≡ true → contains a (join x xs) ≡ true
contains-join a x xs h = ground (arith, contains-append a x xs)

join-IsDistinct : (x : ℕ) (xs : List ℕ) → IsDistinct xs → IsDistinct (join x xs)
join-IsDistinct x xs n = elim (Bool-cases (contains x xs)) [
  | inl e ↦ rw e n
  | inr e ↦ rw e (append-IsDistinct x xs e n)
]

join_known-IsDistinct : (o : Option ℕ) (xs : List ℕ) → IsDistinct xs → IsDistinct (join_known o xs)
join_known-IsDistinct none xs n = n
join_known-IsDistinct (some x) xs n = join-IsDistinct x xs n

contains-join_known :
    (a : ℕ) (o : Option ℕ) (xs : List ℕ)
    → contains a xs ≡ true
    → contains a (join_known o xs) ≡ true
contains-join_known a none xs h = h
contains-join_known a (some x) xs h = contains-join a x xs h

Addressed-join_known : (o : Option ℕ) (xs : List ℕ) → Addressed (join_known o xs) o
Addressed-join_known none xs = tt
Addressed-join_known (some x) xs = contains-join_self x xs

-- Those who take part go on taking part as others join.
joined-TakesPart :
    (f : ℕ) (o : Option ℕ) (xs : List ℕ) (r : NegotiationRoundPayload)
    → TakesPart xs r
    → TakesPart (join_known o (join f xs)) r
joined-TakesPart f o xs r (speaks, hears) = (stays r.from_fips speaks, heard r.to_fips hears)
  where
    stays : (a : ℕ) → contains a xs ≡ true → contains a (join_known o (join f xs)) ≡ true
    stays a h = contains-join_known a o (join f xs) (contains-join a f xs h)

    heard : (t : Option ℕ) → Addressed xs t → Addressed (join_known o (join f xs)) t
    heard none h = tt
    heard (some a) h = stays a h

open_view-IsCoherent : (r : NegotiationRoundPayload) → IsCoherent r.task_id (open_view r)
unfolding open_view
open_view-IsCoherent r = record {
  named = (refl, tt);
  concluded = refl;
  dated = refl;
  begun = refl;
  attended = (
    (
      contains-join_known r.from_fips r.to_fips (r.from_fips ∷ []) (ground arith),
      Addressed-join_known r.to_fips (r.from_fips ∷ []),
    ),
    tt,
  );
  once = join_known-IsDistinct r.to_fips (r.from_fips ∷ []) (refl, tt);
}

add_round-IsCoherent :
    (v : NegotiationView) (r : NegotiationRoundPayload)
    → IsCoherent r.task_id v
    → IsCoherent r.task_id (add_round v r)
unfolding add_round
add_round-IsCoherent v r h = record {
  named = All-append _ v.rounds (r ∷ []) h.named (refl, tt);
  concluded =
      ap (λ s. if terminal_stage r.stage then settlement_status r.stage else s) h.concluded
      ∙ sym (status_after-snoc opened v.rounds r);
  dated = rw (last-snoc v.rounds r) refl;
  begun = started v.rounds h.begun;
  attended =
      All-append _ v.rounds (r ∷ [])
        (All-imp _ _ v.rounds (joined-TakesPart r.from_fips r.to_fips v.participants) h.attended)
        (
          (
            contains-join_known r.from_fips r.to_fips (join r.from_fips v.participants)
                (contains-join_self r.from_fips v.participants),
            Addressed-join_known r.to_fips (join r.from_fips v.participants),
          ),
          tt,
        );
  once =
      join_known-IsDistinct r.to_fips (join r.from_fips v.participants)
        (join-IsDistinct r.from_fips v.participants h.once);
}
  where
    started :
        (rs : List NegotiationRoundPayload)
        → (first rs >>= (λ q. some q.emitted_at)) ≡ some v.started_at
        → (first (rs ++ r ∷ []) >>= (λ q. some q.emitted_at)) ≡ some v.started_at
    started [] e = cc
    started (q ∷ rs) e = e

abbrev pub AllCoherent : Dict String NegotiationView → Type 0
AllCoherent views = Entries IsCoherent views

pub record_round-AllCoherent :
    (views : Dict String NegotiationView) (r : NegotiationRoundPayload)
    → AllCoherent views
    → AllCoherent (record_round views r)
unfolding record_round view_after
record_round-AllCoherent views r h =
    insert-Entries IsCoherent r.task_id _ views (viewed (Option-cases (lookup r.task_id views))) h
  where
    viewed :
        (lookup r.task_id views ≡ none)
          ⊎ ((v : NegotiationView) × (lookup r.task_id views ≡ some v))
        → IsCoherent r.task_id (view_after (lookup r.task_id views) r)
    viewed (inl e) = rw e (open_view-IsCoherent r)
    viewed (inr (v, e)) =
        rw e (add_round-IsCoherent v r (lookup-Entries IsCoherent r.task_id v views h e))

-- A trim only deletes.
pub trim_negotiations-Entries {ℓ} :
    (p : Platform) (P : String → NegotiationView → Type ℓ) (now : ℕ)
    (views : Dict String NegotiationView)
    → Entries P views
    → Entries P (trim_negotiations p now views)
unfolding trim_negotiations trim_oldest
trim_negotiations-Entries p P now views h = elim (Bool-cases (leb (length views) negotiation_cap)) [
  | inl e ↦ rw e h
  | inr e ↦ rw e (trimmed _ _ views h)
]
  where
    trimmed :
        (cutoff : ℕ) (entries : List (String × NegotiationView)) (m : Dict String NegotiationView)
        → Entries P m
        → Entries P (trim_oldest p cutoff entries m)
    trimmed cutoff [] m k = k
    trimmed cutoff ((id, view) ∷ rest) m k = elim (Bool-cases (leb (length m) negotiation_cap)) [
      | inl e ↦ rw e k
      | inr e ↦ elim (Bool-cases (is_spent p cutoff view)) [
        | inl f ↦ rw (e, f) (trimmed cutoff rest (erase id m) (erase-Entries P id m k))
        | inr f ↦ rw (e, f) k
      ]
    ]
