-- ===== src/Data/Scheduler.antt =====
-- packages/data-plane/src: the cache of snapshots (cache.ts), the cache of shocks (shock-cache.ts)
-- and the refresh that fills them (scheduler.ts). What the sources answer is an argument, and the
-- clock is read once in a refresh. The files to which the caches are written are left out.
pub mod Sources
use federated_reserve.Prelude.{
  ℕ, ◌-◌, ◌*◌, String, Option, none, some, List, [], ◌∷◌, ◌++◌, Bool, true, false, not, ◌&&◌,
  if◌then◌else◌, leb, ltb, ◌==◌, nat_eq, string_eq, select, take, length, or_else, ◌>>=◌,
}
use federated_reserve.Prelude.Int.{ℤ}
use federated_reserve.Prelude.Dict.{Dict, lookup, insert, values}
use federated_reserve.Prelude.Sort.{sort}
use federated_reserve.Shared.Platform.{Platform, concat}
use federated_reserve.Shared.States.{StateInfo, lookup_state_by_fips}

pub record Observation : Type 0 where
  pub value : ℤ
  pub observation_date : String
  pub source : String
  pub fetched_at : String

abbrev pub Indicators : Type 0
Indicators = Dict String Observation

pub record StateSnapshot : Type 0 where
  pub state_fips : ℕ
  pub state_abbr : String
  pub refreshed_at : String
  pub indicators : Indicators

pub record ShockEvent : Type 0 where
  pub event_id : String
  pub state_fips : ℕ
  pub shock_kind : String
  pub event_type : String
  pub severity : ℕ
  pub begin_date : String

-- `{ ...a, ...b }`
unfoldable pub spread : Indicators → Indicators → Indicators
spread a [] = a
spread a ((kind, obs) ∷ b) = spread (insert kind obs a) b

-- `for (const s of snapshots) map.set(s.state_fips, s)`, in `setMany` and for FRED
unfoldable pub set_many : List StateSnapshot → Dict ℕ StateSnapshot → Dict ℕ StateSnapshot
set_many [] m = m
set_many (s ∷ rest) m = set_many rest (insert s.state_fips s m)

-- The snapshot of a state after one source has answered, where there is one.
abbrev pub merge_found : String → ℕ → Indicators → StateSnapshot → StateSnapshot
unfolding spread
merge_found now fips indicators existing = record existing {
  indicators = spread existing.indicators indicators;
  refreshed_at = now;
}

abbrev pub fresh_snapshot : String → ℕ → Indicators → StateInfo → StateSnapshot
fresh_snapshot now fips indicators info = record {
  state_fips = fips;
  state_abbr = info.abbr;
  refreshed_at = now;
  indicators = indicators;
}

abbrev pub merged :
    String → ℕ → Indicators → Option StateInfo → Option StateSnapshot → Option StateSnapshot
unfolding merge_found
merged now fips indicators info (some existing) = some (merge_found now fips indicators existing)
merged now fips indicators (some info) none = some (fresh_snapshot now fips indicators info)
merged now fips indicators none none = none

abbrev pub put : ℕ → Option StateSnapshot → Dict ℕ StateSnapshot → Dict ℕ StateSnapshot
put fips none target = target
put fips (some snapshot) target = insert fips snapshot target

-- `mergeIntoStateSnapshots`
unfoldable pub merge_into_state_snapshots :
    String → Dict ℕ StateSnapshot → Dict ℕ Indicators → Dict ℕ StateSnapshot
unfolding merged
merge_into_state_snapshots now target [] = target
merge_into_state_snapshots now target ((fips, indicators) ∷ rest) =
    merge_into_state_snapshots now
      (put fips (merged now fips indicators (lookup_state_by_fips fips) (lookup fips target))
        target)
      rest

-- What a source answers: it is not asked, it answers with errors or without, or it fails.
pub data Fetched {ℓ} (A : Type ℓ) : Type ℓ where
  skipped : Fetched A
  fetched : A → List String → Fetched A
  failed : String → Fetched A

pub record Liveness : Type 0 where
  pub last_refresh_at : Option String
  pub last_error : Option String

pub record Failure : Type 0 where
  pub at : ℕ
  pub error : String

pub record Scheduler : Type 0 where
  pub cache : Dict ℕ StateSnapshot
  pub shocks : Dict String ShockEvent
  pub inflight : Bool
  pub last_refresh_at : Option String
  pub failures_last_hour : List Failure
  pub liveness : Dict String Liveness

pub record Answers : Type 0 where
  pub fred : Fetched (List StateSnapshot)
  pub bls : Fetched (Dict ℕ Indicators)
  pub bea : Fetched (Dict ℕ Indicators)
  pub census : Fetched (Dict ℕ Indicators)
  pub noaa : Fetched (List ShockEvent)

-- The snapshots that a source brings; none where it is skipped or fails.
abbrev pub brought {ℓ} : {A : Type ℓ} → Fetched (List A) → List A
brought skipped = []
brought (fetched xs errors) = xs
brought (failed e) = []

-- The snapshots of one refresh, in the order of the sources.
unfoldable pub gather : String → Answers → Dict ℕ StateSnapshot
unfolding merge_into_state_snapshots set_many
gather now a =
    merge_into_state_snapshots now
      (merge_into_state_snapshots now
        (merge_into_state_snapshots now (set_many (brought a.fred) []) (brought a.bls))
        (brought a.bea))
      (brought a.census)

abbrev mark_ok : String → Option Liveness → String → Dict String Liveness → Dict String Liveness
mark_ok now none name m = m
mark_ok now (some l) name m =
    insert name (record { last_refresh_at = some now; last_error = none }) m

abbrev mark_error : Option Liveness → String → String → Dict String Liveness → Dict String Liveness
mark_error none name err m = m
mark_error (some l) name err m = insert name (record l { last_error = some err }) m

-- `markSourceOk`
abbrev pub mark_source_ok : String → String → Scheduler → Scheduler
mark_source_ok now name s = record s {
  liveness = mark_ok now (lookup name s.liveness) name s.liveness;
}

abbrev pub add_failure : ℕ → String → String → Option Liveness → List Failure → List Failure
add_failure now name err none fs = fs
add_failure now name err (some l) fs =
    fs ++ record { at = now; error = concat (name ∷ ":" ∷ err ∷ []) } ∷ []

-- `recordSourceError`
abbrev pub record_source_error : ℕ → String → String → Scheduler → Scheduler
record_source_error now name err s = record s {
  liveness = mark_error (lookup name s.liveness) name err s.liveness;
  failures_last_hour = add_failure now name err (lookup name s.liveness) s.failures_last_hour;
}

-- What one source leaves of its answer in the liveness; the text of soft errors is an argument.
abbrev pub note_source {ℓ} :
    {A : Type ℓ}
    → Platform
    → ℕ
    → (List String → String)
    → String
    → Fetched A
    → Scheduler
    → Scheduler
note_source p now soft name skipped s = s
note_source p now soft name (fetched x []) s = mark_source_ok (p.iso_string now) name s
note_source p now soft name (fetched x (e ∷ es)) s = record_source_error now name (soft (e ∷ es)) s
note_source p now soft name (failed e) s = record_source_error now name e s

-- `setAll`
unfoldable pub set_all : List ShockEvent → Dict String ShockEvent → Dict String ShockEvent
set_all [] m = m
set_all (e ∷ rest) m = set_all rest (insert e.event_id e m)

abbrev pub replace_shocks :
    Fetched (List ShockEvent) → Dict String ShockEvent → Dict String ShockEvent
unfolding set_all
replace_shocks (fetched events errors) old = set_all events []
replace_shocks skipped old = old
replace_shocks (failed e) old = old

-- `pruneFailures`
unfoldable pub prune_failures : ℕ → Scheduler → Scheduler
prune_failures now s = record s {
  failures_last_hour = select (λ f. leb (now - 60 * 60 * 1000) f.at) s.failures_last_hour;
}

-- `refreshOnce`, once its sources have answered; a refresh that is under way is not overlapped.
unfoldable pub refresh_once :
    Platform → (List String → String) → ℕ → Answers → Scheduler → Scheduler
unfolding gather set_many prune_failures replace_shocks
refresh_once p soft now a s =
    let noted : Scheduler = note_source p now soft "noaa" a.noaa (
      note_source p now soft "census" a.census (
        note_source p now soft "bea" a.bea
          (note_source p now soft "bls" a.bls (note_source p now soft "fred" a.fred s)))) in
    if s.inflight
    then s
    else prune_failures now (record noted {
      cache = set_many (values (gather (p.iso_string now) a)) s.cache;
      shocks = replace_shocks a.noaa s.shocks;
      last_refresh_at = some (p.iso_string now);
      inflight = false;
    })

module _ (p : Platform) where
  -- `b.severity - a.severity || b.begin_date.localeCompare(a.begin_date)`
  abbrev pub severe_first : ShockEvent → ShockEvent → Bool
  severe_first a b =
      if a.severity == b.severity
      then p.locale_leb b.begin_date a.begin_date
      else ltb b.severity a.severity

  -- `forState`
  unfoldable pub for_state : ℕ → ℕ → Scheduler → List ShockEvent
  unfolding sort
  for_state fips limit s =
      take limit (sort severe_first (select (λ e. e.state_fips == fips) (values s.shocks)))

  -- `topSevere`
  unfoldable pub top_severe : ℕ → Scheduler → List ShockEvent
  unfolding sort
  top_severe limit s = take limit (sort severe_first (values s.shocks))
