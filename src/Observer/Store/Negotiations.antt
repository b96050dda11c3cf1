-- ===== src/Observer/Store/Negotiations.antt =====
-- packages/observer/src/store.ts: ingestNegotiationRound without its event, and trimNegotiations.
pub mod Coherent
pub mod Trim
use federated_reserve.Prelude.{
  ℕ, ◌-◌, ◌*◌, String, Option, none, some, List, [], ◌∷◌, ◌++◌, Bool, true, false, not, ◌||◌,
  if◌then◌else◌, leb, ltb, nat_eq, string_eq, contains, length,
}
use federated_reserve.Prelude.Dict.{Dict, lookup, insert, erase}
use federated_reserve.Prelude.Sort.{sort}
use federated_reserve.Shared.Platform.{Platform}
use federated_reserve.Observer.Types.{
  NegotiationStage, accept, reject, settlement, coalition_join, coalition_decline,
  NegotiationRoundPayload, NegotiationStatus, opened, settled, rejected, NegotiationView,
}

abbrev pub negotiation_cap : ℕ
negotiation_cap = 32

abbrev pub negotiation_ttl_ms : ℕ
negotiation_ttl_ms = 30 * 60 * 1000

abbrev pub terminal_stage : NegotiationStage → Bool
terminal_stage accept = true
terminal_stage reject = true
terminal_stage settlement = true
terminal_stage coalition_join = true
terminal_stage coalition_decline = true
terminal_stage _ = false

abbrev pub settlement_status : NegotiationStage → NegotiationStatus
settlement_status reject = rejected
settlement_status coalition_decline = rejected
settlement_status _ = settled

-- `if (!participants.includes(fips)) participants.push(fips)`
abbrev pub join : ℕ → List ℕ → List ℕ
join fips participants =
    if contains fips participants then participants else participants ++ fips ∷ []

abbrev pub join_known : Option ℕ → List ℕ → List ℕ
join_known none participants = participants
join_known (some fips) participants = join fips participants

-- `dedupe([from, ...(to != null ? [to] : [])])`: of a pair, the set in order of insertion.
abbrev pub first_participants : ℕ → Option ℕ → List ℕ
first_participants from to = join_known to (from ∷ [])

unfoldable pub open_view : NegotiationRoundPayload → NegotiationView
open_view payload = record {
  task_id = payload.task_id;
  context_id = payload.context_id;
  skill = payload.skill;
  participants = first_participants payload.from_fips payload.to_fips;
  status = if terminal_stage payload.stage then settlement_status payload.stage else opened;
  rounds = payload ∷ [];
  started_at = payload.emitted_at;
  last_at = payload.emitted_at;
}

unfoldable pub add_round : NegotiationView → NegotiationRoundPayload → NegotiationView
add_round existing payload = record existing {
  rounds = existing.rounds ++ payload ∷ [];
  last_at = payload.emitted_at;
  participants = join_known payload.to_fips (join payload.from_fips existing.participants);
  status =
      if terminal_stage payload.stage then settlement_status payload.stage else existing.status;
}

unfoldable pub view_after : Option NegotiationView → NegotiationRoundPayload → NegotiationView
unfolding open_view add_round
view_after none payload = open_view payload
view_after (some existing) payload = add_round existing payload

-- The map before it is trimmed.
unfoldable pub record_round :
    Dict String NegotiationView → NegotiationRoundPayload → Dict String NegotiationView
unfolding view_after
record_round views payload =
    insert payload.task_id (view_after (lookup payload.task_id views) payload) views

abbrev pub is_open : NegotiationStatus → Bool
is_open opened = true
is_open _ = false

-- `time < cutoff`, false for what is not a date
abbrev pub before_cutoff : Option ℕ → ℕ → Bool
before_cutoff none cutoff = false
before_cutoff (some time) cutoff = ltb time cutoff

module _ (p : Platform) where
  -- A negotiation that a trim may delete.
  abbrev pub is_spent : ℕ → NegotiationView → Bool
  is_spent cutoff view = not (is_open view.status) || before_cutoff (p.time_of view.last_at) cutoff

  -- The loop over the entries from the oldest on: `views` is the map, which shrinks.
  unfoldable pub trim_oldest :
      ℕ
      → List (String × NegotiationView)
      → Dict String NegotiationView
      → Dict String NegotiationView
  trim_oldest cutoff [] views = views
  trim_oldest cutoff ((id, view) ∷ rest) views =
      if leb (length views) negotiation_cap
      then views
      else if is_spent cutoff view
      then trim_oldest cutoff rest (erase id views)
      else views

  abbrev pub older : String × NegotiationView → String × NegotiationView → Bool
  older a b = p.locale_leb (a.1).last_at (b.1).last_at

  -- `trimNegotiations`
  unfoldable pub trim_negotiations : ℕ → Dict String NegotiationView → Dict String NegotiationView
  unfolding sort trim_oldest
  trim_negotiations now views =
      if leb (length views) negotiation_cap
      then views
      else trim_oldest (now - negotiation_ttl_ms) (sort older views) views
