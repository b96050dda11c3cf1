-- ===== src/Shared/Skills.antt =====
-- packages/shared/src/a2a-types.ts: the payloads of the A2A skills, as the schemas leave them.
-- An amount of dollars is counted in millionths of a dollar, the base unit of USDC.
use federated_reserve.Prelude.{ℕ, String, Option, List}
use federated_reserve.Prelude.Int.{ℤ}
use federated_reserve.Shared.Text.{Text}
use federated_reserve.Shared.BigInt.{AmountText}

pub record AssetAmount : Type 0 where
  pub asset : String
  pub amount : AmountText

pub record SwapProposal : Type 0 where
  pub initiator_fips : ℕ
  pub give : AssetAmount
  pub receive : AssetAmount
  pub rationale : String

pub record SwapCounter : Type 0 where
  pub responder_fips : ℕ
  pub give : AssetAmount
  pub receive : AssetAmount
  pub rationale : Text

pub record SwapAccept : Type 0 where
  pub by_fips : ℕ
  pub agreed_give : AssetAmount
  pub agreed_receive : AssetAmount

pub record SwapReject : Type 0 where
  pub by_fips : ℕ
  pub reason : String

pub data NegotiateSwapMessage : Type 0 where
  proposal : SwapProposal → NegotiateSwapMessage
  counter : SwapCounter → NegotiateSwapMessage
  accept : SwapAccept → NegotiateSwapMessage
  reject : SwapReject → NegotiateSwapMessage

pub data TxStatus : Type 0 where
  success reverted : TxStatus

pub record SwapTxLeg : Type 0 where
  pub fips : ℕ
  pub swapper_address : String
  pub token_in_symbol : String
  pub token_in_address : String
  pub token_out_symbol : String
  pub token_out_address : String
  pub amount_in : ℤ
  pub expected_amount_out : ℕ
  pub tx_hash : String
  pub block_number : ℕ
  pub status : TxStatus
  pub quote_request_id : String
  pub swap_request_id : String

pub record SwapSettlement : Type 0 where
  pub initiator_fips : ℕ
  pub responder_fips : ℕ
  pub agreed_give : AssetAmount
  pub agreed_receive : AssetAmount
  pub rounds : ℕ
  pub initiator_leg : Option SwapTxLeg
  pub responder_leg : Option SwapTxLeg
  pub tx_hash : Option String

pub record CoalitionInvite : Type 0 where
  pub initiator_fips : ℕ
  pub coalition_tag : String
  pub topic : String
  pub proposed_contribution_usd : ℕ
  pub duration_days : Option ℕ

pub data CoalitionKind : Type 0 where
  joined declined counter_terms : CoalitionKind

pub record CoalitionResponse : Type 0 where
  pub kind : CoalitionKind
  pub responder_fips : ℕ
  pub contribution_usd : ℕ
  pub rationale : Text
  pub preferred_contribution_usd : Option ℕ
  pub preferred_duration_days : Option ℕ

pub record BondBid : Type 0 where
  pub issuer_fips : ℕ
  pub bidder_fips : ℕ
  pub bond_id : String
  pub principal_usd : ℕ
  pub bid_yield_bps : ℕ
  pub rationale : String

pub data AwardKind : Type 0 where
  awarded rejected : AwardKind

-- What a mint leaves behind; the four optional fields of an award are set together.
pub record BondMintSettlementResult : Type 0 where
  pub bond_address : String
  pub principal_usdc_base : ℕ
  pub tx_hash : String
  pub block_number : ℕ

pub record BondAward : Type 0 where
  pub kind : AwardKind
  pub bond_id : String
  pub to_fips : ℕ
  pub yield_bps : ℕ
  pub rationale : Text
  pub mint : Option BondMintSettlementResult

pub record AidRequest : Type 0 where
  pub requester_fips : ℕ
  pub reason : String
  pub amount_usd : ℕ
  pub repayment_terms : String

pub data AidKind : Type 0 where
  offered refused : AidKind

-- What an aid transfer leaves behind; the four optional fields of a response are set together.
pub record AidSettlement : Type 0 where
  pub tx_hash : String
  pub block_number : ℕ
  pub amount : ℕ
  pub recipient : String

pub record AidResponse : Type 0 where
  pub kind : AidKind
  pub responder_fips : ℕ
  pub amount_usd : ℕ
  pub yield_bps : ℕ
  pub rationale : Text
  pub settlement : Option AidSettlement

pub data ShockKind : Type 0 where
  natural_disaster market_shock policy_shock : ShockKind

pub record ShockSignal : Type 0 where
  pub initiator_fips : ℕ
  pub shock_kind : ShockKind
  pub affected_fips : List ℕ
  pub severity : ℕ
  pub proposed_action : String

pub data ShockContributionKind : Type 0 where
  joining abstaining : ShockContributionKind

pub record ShockContribution : Type 0 where
  pub kind : ShockContributionKind
  pub responder_fips : ℕ
  pub commitment_usd : ℕ
  pub rationale : Text

pub data SkillEnvelope : Type 0 where
  coalition_invite : CoalitionInvite → SkillEnvelope
  coalition_revised_invite : CoalitionInvite → SkillEnvelope
  bond_bid : BondBid → SkillEnvelope
  aid_request : AidRequest → SkillEnvelope
  shock_signal : ShockSignal → SkillEnvelope
