-- ===== src/Observer/Store/Hydrate.antt =====
-- packages/observer/src/store.ts: hydrateFromMemory and loadInfts, which read what the agents and
-- the minting have written to files. A file is what reading and parsing it gives.
use federated_reserve.Prelude.{
  ℕ, String, Option, none, some, List, [], ◌∷◌, if◌then◌else◌, ◌==◌, string_eq, or_else, length,
  ◌>>=◌, Bool, false,
}
use federated_reserve.Prelude.Dict.{Dict, insert}
use federated_reserve.Prelude.{nat_eq}
use federated_reserve.Shared.Platform.{Platform, concat}
use federated_reserve.Shared.Text.{lower}
use federated_reserve.Agent.State.{TreasuryAsset}
use federated_reserve.Observer.Types.{
  StateDashboardView, InftManifest, inft_manifest_updated, system_warning,
}
use federated_reserve.Observer.Project.{
  Explorers, MemoryChainBalances, MemoryOgStatus, MemoryLastAnchor, project_chain_balances,
  project_og_status,
}
use federated_reserve.Observer.Store.{ObserverStore, emit}
use federated_reserve.Observer.Store.Operations.{with_health}

-- What the memory of an agent holds, as the observer reads it.
pub record MemoryStateFile : Type 0 where
  pub composition : Option (List TreasuryAsset)
  pub reserve_ratio : Option ℕ
  pub total_value_usd : Option ℕ
  pub tick_count : Option ℕ
  pub wallet_address : Option String
  pub chain_balances : Option MemoryChainBalances
  pub og_status : Option MemoryOgStatus
  pub last_anchor : Option MemoryLastAnchor

-- A file that is read and parsed: there is none, it cannot be read, or this is in it.
pub data FileRead {ℓ} (A : Type ℓ) : Type ℓ where
  absent : FileRead A
  unreadable : String → FileRead A
  content : A → FileRead A

abbrev pub kept {ℓ} : {A : Type ℓ} → Option A → Option A → Option A
kept none old = old
kept (some new) old = some new

-- The body of the `try`.
unfoldable pub hydrate_view :
    Explorers → String → MemoryStateFile → StateDashboardView → StateDashboardView
unfolding with_health project_chain_balances project_og_status
hydrate_view env received_at parsed state = with_health (record state {
  composition = or_else parsed.composition state.composition;
  reserve_ratio = kept parsed.reserve_ratio state.reserve_ratio;
  total_value_usd = kept parsed.total_value_usd state.total_value_usd;
  tick_count = kept parsed.tick_count state.tick_count;
  last_seen_at = some (or_else state.last_seen_at received_at);
  wallet_address = kept parsed.wallet_address state.wallet_address;
  chain_balances =
      kept (parsed.chain_balances >>= (λ b. some (project_chain_balances env b)))
        state.chain_balances;
  og_status =
      kept (parsed.og_status >>= (λ o. some (project_og_status env o parsed.last_anchor)))
        state.og_status;
})

-- `stamp === this.lastInftManifestStamp`
abbrev pub is_stamped : String → Option String → Bool
is_stamped stamp none = false
is_stamped stamp (some old) = stamp == old

module _ (p : Platform) where
  unfoldable pub hydrate_state :
      Explorers
      → ℕ
      → ℕ
      → StateDashboardView
      → FileRead MemoryStateFile
      → ObserverStore
      → ObserverStore
  unfolding emit hydrate_view
  hydrate_state env now fips state absent store = store
  hydrate_state env now fips state (unreadable reason) store =
      emit p now
        (system_warning
          (concat ("failed to read memory state for " ∷ state.abbr ∷ ": " ∷ reason ∷ [])))
        store
  hydrate_state env now fips state (content parsed) store = record store {
    states = insert fips (hydrate_view env (p.iso_string now) parsed state) store.states;
  }

  -- The loop over the states; `memory` reads the file in the folder of that name.
  unfoldable pub hydrate_states :
      Explorers
      → (String → FileRead MemoryStateFile)
      → ℕ
      → Dict ℕ StateDashboardView
      → ObserverStore
      → ObserverStore
  unfolding hydrate_state lower
  hydrate_states env memory now [] store = store
  hydrate_states env memory now ((fips, state) ∷ rest) store =
      hydrate_states env memory now rest
        (hydrate_state env now fips state (memory (lower state.abbr)) store)

  -- `hydrateFromMemory`
  unfoldable pub hydrate_from_memory :
      Explorers → (String → FileRead MemoryStateFile) → ℕ → ObserverStore → ObserverStore
  unfolding hydrate_states
  hydrate_from_memory env memory now store = hydrate_states env memory now store.states store

  abbrev pub stamp_of : InftManifest → String
  stamp_of manifest = concat (
      or_else manifest.generated_at ""
      ∷ "|"
      ∷ or_else manifest.mint_status ""
      ∷ "|"
      ∷ p.number_text (length (or_else manifest.entries []))
      ∷ [])

  -- `loadInfts`
  unfoldable pub load_infts : FileRead InftManifest → ℕ → ObserverStore → ObserverStore
  unfolding emit
  load_infts absent now store = store
  load_infts (unreadable reason) now store =
      emit p now (system_warning (concat ("failed to load iNFT manifest: " ∷ reason ∷ []))) store
  load_infts (content manifest) now store =
      let loaded : ObserverStore = record store { infts = or_else manifest.entries [] } in
      if is_stamped (stamp_of manifest) store.last_inft_manifest_stamp
      then loaded
      else emit p now
          (inft_manifest_updated (record {
            generated_at = manifest.generated_at;
            count = length (or_else manifest.entries []);
            mint_status = manifest.mint_status;
          }))
          (record loaded { last_inft_manifest_stamp = some (stamp_of manifest) })
