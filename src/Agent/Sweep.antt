-- ===== src/Agent/Sweep.antt =====
-- packages/agent/src/tick.ts: sweepNoaaShocksAndFanOut, with which the Federal Reserve signals shocks
-- to the states, and resolvePeerPubkeyByAbbr. The clock is read once in a sweep.
pub mod Groups
pub mod Progress
pub mod Remembers
pub mod OneEach
mod Tests
use federated_reserve.Prelude.{
  ℕ, ◌-◌, ◌*◌, String, Option, none, some, List, [], ◌∷◌, ◌++◌, Bool, true, false, not, ◌&&◌, ◌||◌,
  if◌then◌else◌, ltb, leb, ◌==◌, nat_eq, string_eq, contains, length, drop, or_else, is_some,
}
use federated_reserve.Prelude.Dict.{Dict, lookup, insert}
use federated_reserve.Shared.Text.{lower, includes}
use federated_reserve.Shared.States.{StateInfo, lookup_state_by_fips}
use federated_reserve.Data.Scheduler.{ShockEvent}

-- An entry of the cache of agent cards.
pub record CardEntry : Type 0 where
  pub abbr : Option String
  pub ts : ℕ

abbrev pub first_match : String → List (String × String) → Option String
first_match name [] = none
first_match name ((part, abbr) ∷ rest) =
    if includes name part then some abbr else first_match name rest

abbrev pub card_names : List (String × String)
card_names =
    ("massachusetts", "MA")
    ∷ ("california", "CA")
    ∷ ("texas", "TX")
    ∷ ("new york", "NY")
    ∷ ("florida", "FL")
    ∷ ("illinois", "IL")
    ∷ ("washington", "WA")
    ∷ ("alaska", "AK")
    ∷ ("federal reserve", "FED")
    ∷ ("treasury", "TRS")
    ∷ []

-- What the name of a card says; a card that cannot be fetched says nothing.
unfoldable pub match_card : Option (Option String) → Option String
unfolding lower
match_card none = none
match_card (some name) = first_match (lower (or_else name "")) card_names

-- `cached && Date.now() - cached.ts < 5 * 60 * 1000`
abbrev pub is_recent : ℕ → CardEntry → Bool
is_recent now entry = ltb (now - entry.ts) (5 * 60 * 1000)

abbrev pub is_named : String → Option String → Bool
is_named abbr none = false
is_named abbr (some other) = other == abbr

-- What is done with a peer: it is asked for its card, or what is known of it is used.
pub data Lookup : Type 0 where
  known : Option String → Lookup
  ask : Lookup

abbrev pub look : ℕ → Option CardEntry → Lookup
look now none = ask
look now (some entry) =
    if is_some entry.abbr then known entry.abbr else if is_recent now entry then known none else ask

-- `getRemoteAgentCard`: the name on the card of a peer, if it has one; `none` is an error.
abbrev pub Cards : Type 0
Cards = String → Option (Option String)

-- `resolvePeerPubkeyByAbbr`: the cache that it leaves, and the peer.
unfoldable pub resolve_peer :
    Cards → ℕ → String → List String → Dict String CardEntry → Dict String CardEntry × Option String
unfolding match_card
resolve_peer cards now abbr [] cache = (cache, none)
resolve_peer cards now abbr (peer ∷ peers) cache = elim (look now (lookup peer cache)) [
  | known found ↦
      if is_named abbr found then (cache, some peer) else resolve_peer cards now abbr peers cache
  | ask ↦
      let found : Option String = match_card (cards peer) in
      let next : Dict String CardEntry = insert peer (record { abbr = found; ts = now }) cache in
      if is_named abbr found then (next, some peer) else resolve_peer cards now abbr peers next
]

-- A signal that is sent: to which peer, and of which event.
pub record Signal : Type 0 where
  pub target : String
  pub event : ShockEvent

-- The state of the task that comes back, and the kind of the contribution in it.
pub record Response : Type 0 where
  pub state : Option String
  pub kind : Option String

-- What a sweep is given; `none` from `call` is an error.
pub record SweepDeps : Type 0 where
  pub now : ℕ
  pub peers : List String
  pub cards : Cards
  pub call : Signal → Option Response

-- What a sweep has done so far.
pub record Sweep : Type 0 where
  pub cache : Dict String CardEntry
  pub recently : List String
  pub signals : List Signal
  pub reports : List ShockEvent

-- `!cur || ev.severity > cur.severity`
abbrev pub is_worse : ShockEvent → Option ShockEvent → Bool
is_worse ev none = true
is_worse ev (some cur) = ltb cur.severity ev.severity

-- The most severe event of each state that has not been injected.
unfoldable pub group_by_fips : List String → List ShockEvent → Dict ℕ ShockEvent → Dict ℕ ShockEvent
group_by_fips recently [] groups = groups
group_by_fips recently (ev ∷ events) groups =
    if contains ev.event_id recently
    then group_by_fips recently events groups
    else if is_worse ev (lookup ev.state_fips groups)
    then group_by_fips recently events (insert ev.state_fips ev groups)
    else group_by_fips recently events groups

-- `recently.add(id)`
unfoldable pub add_id : String → List String → List String
add_id id recently = if contains id recently then recently else recently ++ id ∷ []

-- `state === 'completed' && contribution?.kind`
abbrev pub is_settled : Option Response → Bool
is_settled none = false
is_settled (some r) = is_named "completed" r.state && not (or_else r.kind "" == "")

unfoldable pub send : SweepDeps → ShockEvent → String → Sweep → Sweep
unfolding add_id
send d ev target s =
    let signal : Signal = record { target = target; event = ev } in
    let sent : Sweep = record s { signals = s.signals ++ signal ∷ [] } in
    if is_settled (d.call signal)
    then record sent { recently = add_id ev.event_id s.recently; reports = s.reports ++ ev ∷ [] }
    else sent

abbrev pub send_found : SweepDeps → ShockEvent → Option String → Sweep → Sweep
unfolding send
send_found d ev none s = s
send_found d ev (some target) s = if contains target d.peers then send d ev target s else s

abbrev pub inject_known : SweepDeps → ShockEvent → Option StateInfo → Sweep → Sweep
unfolding send_found resolve_peer
inject_known d ev none s = s
inject_known d ev (some info) s =
    let (cache, target) = resolve_peer d.cards d.now info.abbr d.peers s.cache in
    send_found d ev target (record s { cache = cache })

unfoldable pub fan_out : SweepDeps → Dict ℕ ShockEvent → Sweep → Sweep
unfolding inject_known
fan_out d [] s = s
fan_out d ((fips, ev) ∷ rest) s = fan_out d rest (inject_known d ev (lookup_state_by_fips fips) s)

-- `if (recently.size > 64)`, the oldest are deleted until 48 are left.
unfoldable pub forget : List String → List String
forget recently =
    if ltb 64 (length recently) then drop (length recently - 48) recently else recently

-- `sweepNoaaShocksAndFanOut`; without peers, or without an event that is new, nothing is done.
unfoldable pub sweep : SweepDeps → List ShockEvent → Dict String CardEntry → List String → Sweep
unfolding fan_out group_by_fips forget
sweep d events cache recently =
    let start : Sweep = record { cache = cache; recently = recently; signals = []; reports = [] } in
    let groups : Dict ℕ ShockEvent = group_by_fips recently events [] in
    let done : Sweep = fan_out d groups start in
    if leb (length events) 0 || (leb (length d.peers) 0 || leb (length groups) 0)
    then start
    else record done { recently = forget done.recently }
