-- ===== src/Agent/Executor/Deps.antt =====
-- What the executor of one agent is given: its configuration, the parts of its state that the
-- handlers read, and the services that it calls. The language model, the chain behind the Uniswap
-- Trading API and viem, the deployments file and the environment are not the program's own code:
-- they are functions, and `none` is a call that fails. A zod schema is what it makes of a message.
use federated_reserve.Prelude.{
  ℕ, String, Option, none, some, List, Bool, if◌then◌else◌, ◌==◌, string_eq,
}
use federated_reserve.Prelude.Int.{ℤ}
use Prim.Native.String
use federated_reserve.Shared.Text.{Text}
use federated_reserve.Shared.Skills.{
  AssetAmount, NegotiateSwapMessage, SkillEnvelope, TxStatus, CoalitionKind, AidKind, AidRequest,
  ShockSignal, ShockContributionKind,
}
use federated_reserve.Shared.Credit.{CreditInputs}
use federated_reserve.Shared.Deployments.{ContractDeployments}
use federated_reserve.Agent.Auction.Evaluate.{AuctionReasoner}

-- The model may answer any text as its action; `other` is one that the code does not know.
pub data Action : Type 0 where
  accept_it counter_it reject_it other : Action

pub record ReasonerDecision : Type 0 where
  pub action : Action
  pub give : Option AssetAmount
  pub receive : Option AssetAmount
  pub rationale : Text

pub record SwapQuestion : Type 0 where
  pub is_proposal : Bool
  pub their_give : AssetAmount
  pub their_receive : AssetAmount
  pub their_rationale : Text
  pub round : ℕ

pub record CoalitionQuestion : Type 0 where
  pub coalition_tag : String
  pub topic : String
  pub proposed_contribution_usd : ℕ
  pub duration_days : Option ℕ
  pub can_counter : Bool

pub record CoalitionDecision : Type 0 where
  pub kind : CoalitionKind
  pub contribution_usd : Option ℕ
  pub preferred_contribution_usd : Option ℕ
  pub preferred_duration_days : Option ℕ
  pub rationale : Text

pub record AidDecision : Type 0 where
  pub kind : AidKind
  pub amount_usd : ℕ
  pub yield_bps : ℕ
  pub rationale : Text

pub record ShockDecision : Type 0 where
  pub kind : ShockContributionKind
  pub commitment_usd : ℕ
  pub rationale : Text

pub record Reasoner : Type 0 where
  pub swap : SwapQuestion → Option ReasonerDecision
  pub coalition : CoalitionQuestion → Option CoalitionDecision
  pub aid : AidRequest → Option AidDecision
  pub shock : ShockSignal → Option ShockDecision

pub record TxReceipt : Type 0 where
  pub tx_hash : String
  pub block_number : ℕ
  pub status : TxStatus

pub record SwapResult : Type 0 where
  pub tx_hash : String
  pub expected_out : ℕ
  pub block_number : ℕ
  pub status : TxStatus
  pub quote_request_id : String
  pub swap_request_id : String

pub record SwapExecutor : Type 0 where
  pub address : String
  pub mint_bond : String → String → ℕ → Option TxReceipt
  pub pay_issuer : String → String → ℕ → Option TxReceipt
  pub swap : String → String → ℤ → Option SwapResult

-- The reasoner is absent also where reasoning is switched off, and the swap executor also where
-- settlement is: the code tests the two together everywhere.
pub record Deps : Type 0 where
  pub fips : ℕ
  pub abbr : String
  pub telemetry : Bool
  pub reasoner : Option Reasoner
  pub auction_reasoner : AuctionReasoner
  pub swap_executor : Option SwapExecutor
  pub deployments : Option ContractDeployments
  pub env : String → Option String
  pub credit_inputs : CreditInputs
  pub reserve_ratio : ℕ

-- `process.env['WALLET_' + abbr + '_ADDRESS']`, where an empty text counts as absent.
pub wallet_address : Deps → String → Option String
wallet_address d abbr = elim (d.env (String.◌++◌ "WALLET_" (String.◌++◌ abbr "_ADDRESS"))) [
  | none ↦ none
  | some address ↦ if address == "" then none else some address
]

-- What the schemas make of the data part of a message, and their words where they refuse it.
pub record DataPart : Type 0 where
  pub skill_is_string : Bool
  pub as_skill : Option SkillEnvelope
  pub as_swap : Option NegotiateSwapMessage
  pub error_message : String

-- A message by its data part, if it has one; a task by the messages of its history.
pub record Context : Type 0 where
  pub message : Option DataPart
  pub task : Option (Option (List (Option DataPart)))
