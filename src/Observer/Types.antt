-- ===== src/Observer/Types.antt =====
-- packages/observer/src/types.ts: what the observer shows. A reserve ratio is in basis points, an
-- indicator in hundredths, an amount of dollars in millionths of a dollar.
use federated_reserve.Prelude.{ℕ, String, Option, Bool, List}
use federated_reserve.Prelude.Dict.{Dict}
use federated_reserve.Prelude.Int.{ℤ}
use federated_reserve.Shared.States.{CensusRegion, StateTier}
use federated_reserve.Agent.State.{TreasuryAsset}

-- `ShareEconomicIndicatorInput` of packages/shared/src/mcp-schemas.ts
pub record IndicatorInput : Type 0 where
  pub state_fips : ℕ
  pub indicator : String
  pub value : ℤ
  pub timestamp : String
  pub source : String

-- The same, with the time that it came.
pub record IndicatorEntry : Type 0 where
  pub input : IndicatorInput
  pub received_at : String

-- `AnnounceFedRateInput` of packages/shared/src/mcp-schemas.ts
pub record FedRateInput : Type 0 where
  pub rate_bps : ℕ
  pub effective : String
  pub rationale : String

pub record FedRateView : Type 0 where
  pub rate_bps : ℕ
  pub effective : String
  pub rationale : String
  pub received_at : String

pub record FedRateHistoryEntry : Type 0 where
  pub id : ℕ
  pub view : FedRateView

pub data NegotiationStage : Type 0 where
  proposal counter accept reject settlement : NegotiationStage
  coalition_join coalition_decline coalition_counter : NegotiationStage

-- The terms of a round are only passed on; their members are left out.
pub record NegotiationRoundPayload : Type 0 where
  pub task_id : String
  pub context_id : Option String
  pub skill : String
  pub round : ℕ
  pub from_fips : ℕ
  pub to_fips : Option ℕ
  pub stage : NegotiationStage
  pub summary : String
  pub emitted_at : String

pub data NegotiationStatus : Type 0 where
  opened settled rejected expired : NegotiationStatus

pub record NegotiationView : Type 0 where
  pub task_id : String
  pub context_id : Option String
  pub skill : String
  pub participants : List ℕ
  pub status : NegotiationStatus
  pub rounds : List NegotiationRoundPayload
  pub started_at : String
  pub last_at : String

pub record TermsLeg : Type 0 where
  pub asset : String
  pub amount : String

pub record SwapExecutedPayload : Type 0 where
  pub from_fips : ℕ
  pub to_fips : ℕ
  pub give : TermsLeg
  pub receive : TermsLeg
  pub tx_hash : String
  pub explorer_url : Option String
  pub emitted_at : String

pub record ShockInjectedPayload : Type 0 where
  pub state_fips : ℕ
  pub shock_kind : String
  pub event_type : String
  pub severity : ℕ
  pub source : String
  pub emitted_at : String

pub record ReflectionPayload : Type 0 where
  pub state_fips : ℕ
  pub state_abbr : String
  pub summary : String
  pub tick : Option ℕ
  pub emitted_at : String

pub record PeerUpdate : Type 0 where
  pub observer_pubkey : String
  pub peer_count : ℕ
  pub peers : List String

pub record ManifestUpdate : Type 0 where
  pub generated_at : Option String
  pub count : ℕ
  pub mint_status : Option String

-- The kinds of events, each with its payload; nothing emits a `mesh_snapshot`.
pub data Payload : Type 0 where
  indicator_received : IndicatorEntry → Payload
  fed_rate_received : FedRateView → Payload
  peer_update : PeerUpdate → Payload
  inft_manifest_updated : ManifestUpdate → Payload
  system_warning : String → Payload
  negotiation_round : NegotiationRoundPayload → Payload
  swap_executed : SwapExecutedPayload → Payload
  shock_injected : ShockInjectedPayload → Payload
  reflection : ReflectionPayload → Payload

pub record ObserverEvent : Type 0 where
  pub id : ℕ
  pub timestamp : String
  pub payload : Payload

pub record TokenView : Type 0 where
  pub abbr : String
  pub address : String
  pub symbol : String
  pub balance : String
  pub balance_raw : String
  pub notional_usd : ℕ

pub record BondView : Type 0 where
  pub bond_id : String
  pub symbol : String
  pub balance : String
  pub balance_raw : String
  pub notional_usd : ℕ
  pub address : String
  pub coupon_bps : ℕ

pub record OnchainBalanceView : Type 0 where
  pub fetched_at : String
  pub block_number : String
  pub chain_id : ℕ
  pub rpc : String
  pub wallet_address : String
  pub native_balance : String
  pub usdc_balance : String
  pub usdc_balance_raw : String
  pub state_token : Option TokenView
  pub bonds : List BondView
  pub total_notional_usd : ℕ
  pub liquid_reserve_ratio : ℕ
  pub wallet_explorer_url : Option String

pub record LatestAnchorView : Type 0 where
  pub root_hash : String
  pub tx_seq : Option String
  pub storage_tx : String
  pub update_metadata_tx : String
  pub reason : String
  pub tick_count : ℕ
  pub at : String
  pub submission_url : Option String
  pub storage_tx_url : Option String
  pub update_metadata_tx_url : Option String

pub record InftView : Type 0 where
  pub token_id : String
  pub contract : String
  pub onchain_owner : String
  pub expected_owner : String
  pub onchain_uri : String
  pub initial_uri : String
  pub root_hash : String
  pub mint_tx : String
  pub explorer_token_url : Option String
  pub explorer_storage_url : Option String
  pub owner_matches : Bool

pub record OgStatusView : Type 0 where
  pub fetched_at : String
  pub block_number : String
  pub chain_id : ℕ
  pub rpc : String
  pub wallet_address : String
  pub native_balance : String
  pub wallet_explorer_url : Option String
  pub inft : Option InftView
  pub latest_anchor : Option LatestAnchorView

pub data Health : Type 0 where
  unknown green amber red : Health

pub record StateDashboardView : Type 0 where
  pub fips : ℕ
  pub abbr : String
  pub name : String
  pub region : CensusRegion
  pub tier : StateTier
  pub health : Health
  pub reserve_ratio : Option ℕ
  pub total_value_usd : Option ℕ
  pub composition : List TreasuryAsset
  pub latest_indicator : Option IndicatorEntry
  pub indicators : Dict String IndicatorEntry
  pub tick_count : Option ℕ
  pub last_seen_at : Option String
  pub wallet_address : Option String
  pub chain_balances : Option OnchainBalanceView
  pub og_status : Option OgStatusView

-- An entry of the iNFT manifest; the observer only passes it on, and the rest of it is left out.
pub record InftManifestEntry : Type 0 where
  pub state_fips : ℕ
  pub token_id : Option ℕ
  pub mint_status : String
  pub metadata_uri : String

pub record InftManifest : Type 0 where
  pub generated_at : Option String
  pub mint_status : Option String
  pub entries : Option (List InftManifestEntry)
