-- ===== src/Agent/Executor/Chain.antt =====
-- The three on-chain settlements of packages/agent/src/a2a/executor.ts: the mint of a bond, the
-- transfer of aid and the responder's leg of a swap. Each is an order, which is `none` where the
-- code skips, and the call that the order makes; the calls made are kept beside the result.
pub mod Bounds
pub mod AidBounds
pub mod LegBounds
use federated_reserve.Prelude.{
  ℕ, ◌+◌, ◌*◌, ◌/◌, ◌%◌, String, Option, none, some, List, [], ◌∷◌, Bool, true, false, ◌||◌,
  if◌then◌else◌, ltb, ◌==◌, nat_eq, string_eq, ◌>>=◌,
}
use federated_reserve.Prelude.Int.{ℤ, pos, negsuc}
use federated_reserve.Shared.Text.{lower}
use federated_reserve.Shared.BigInt.{AmountText, big_int}
use federated_reserve.Shared.States.{lookup_state_by_fips}
use federated_reserve.Shared.Deployments.{
  ContractDeployments, BondEntry, TokenInfo, get_usdc, get_state_token, resolve_asset, get_bond,
}
use federated_reserve.Shared.Skills.{
  AssetAmount, BondBid, BondMintSettlementResult, AidSettlement, SwapTxLeg, TxStatus, success,
  reverted,
}
use federated_reserve.Agent.Executor.Events.{ChainCall, mint_bond, transfer, swap}
use federated_reserve.Agent.Executor.Deps.{
  Deps, SwapExecutor, SwapResult, TxReceipt, wallet_address,
}

-- The base units of a dollar of USDC.
abbrev pub usdc_unit : ℕ
usdc_unit = 1000000

-- A test that lets the code go on.
abbrev pub require : Bool → Option (Unit {0})
require true = some tt
require false = none

infixl 5 ◌>>◌
abbrev pub ◌>>◌ {ℓ} : {B : Type ℓ} → Option (Unit {0}) → Option B → Option B
m >> k = m >>= λ _. k

abbrev pub is_success : TxStatus → Bool
is_success success = true
is_success reverted = false

-- `BigInt(usd)`: the error on an amount with a fraction is `none`, like every other skip.
pub whole_dollars : ℕ → Option ℕ
whole_dollars usd = if usd % usdc_unit == 0 then some (usd / usdc_unit) else none

pub record BondOrder : Type 0 where
  pub executor : SwapExecutor
  pub bond : BondEntry
  pub recipient : String
  pub amount : ℕ

-- `executeBondMint` up to the mint.
pub bond_order : Deps → BondBid → Option BondOrder
unfolding whole_dollars
bond_order d bid = do
  executor ← d.swap_executor
  deployments ← d.deployments
  bond ← get_bond deployments bid.bond_id
  require (bond.issuer_fips == d.fips)
  bidder ← lookup_state_by_fips bid.bidder_fips
  recipient ← wallet_address d bidder.abbr
  dollars ← whole_dollars bid.principal_usd
  let offered = bond.principal_usdc_base
  let requested = dollars * usdc_unit
  some (record {
    executor = executor;
    bond = bond;
    recipient = recipient;
    amount = if ltb offered requested then offered else requested;
  })

minted : BondOrder → Option TxReceipt → Option BondMintSettlementResult
minted o receipt = do
  r ← receipt
  require (is_success r.status)
  some (record {
    bond_address = o.bond.address;
    principal_usdc_base = o.amount;
    tx_hash = r.tx_hash;
    block_number = r.block_number;
  })

place_mint : Option BondOrder → List ChainCall × Option BondMintSettlementResult
unfolding minted
place_mint none = ([], none)
place_mint (some o) = (
  mint_bond o.bond.address o.recipient o.amount ∷ [],
  minted o (o.executor.mint_bond o.bond.address o.recipient o.amount),
)

pub execute_bond_mint : Deps → BondBid → List ChainCall × Option BondMintSettlementResult
unfolding bond_order place_mint
execute_bond_mint d bid = place_mint (bond_order d bid)

pub record AidOrder : Type 0 where
  pub executor : SwapExecutor
  pub usdc : TokenInfo
  pub recipient : String
  pub amount : ℕ

-- `executeAidTransfer` up to the transfer.
pub aid_order : Deps → ℕ → ℕ → Option AidOrder
aid_order d requester_fips amount_usd = do
  executor ← d.swap_executor
  requester ← lookup_state_by_fips requester_fips
  recipient ← wallet_address d requester.abbr
  deployments ← d.deployments
  let amount = amount_usd / usdc_unit * usdc_unit
  require (if amount == 0 then false else true)
  some (record {
    executor = executor;
    usdc = get_usdc deployments;
    recipient = recipient;
    amount = amount;
  })

transferred : AidOrder → Option TxReceipt → Option AidSettlement
transferred o receipt = do
  r ← receipt
  require (is_success r.status)
  some (record {
    tx_hash = r.tx_hash;
    block_number = r.block_number;
    amount = o.amount;
    recipient = o.recipient;
  })

place_transfer : Option AidOrder → List ChainCall × Option AidSettlement
unfolding transferred
place_transfer none = ([], none)
place_transfer (some o) = (
  transfer o.usdc.address o.recipient o.amount ∷ [],
  transferred o (o.executor.pay_issuer o.usdc.address o.recipient o.amount),
)

pub execute_aid_transfer : Deps → ℕ → ℕ → List ChainCall × Option AidSettlement
unfolding aid_order place_transfer
execute_aid_transfer d requester_fips amount_usd =
    place_transfer (aid_order d requester_fips amount_usd)

abbrev pub is_zero : ℤ → Bool
is_zero (pos n) = n == 0
is_zero (negsuc _) = false

pub record LegOrder : Type 0 where
  pub executor : SwapExecutor
  pub usdc : TokenInfo
  pub token : TokenInfo
  pub amount : ℤ

pub same_address : TokenInfo → TokenInfo → Bool
unfolding lower
same_address a b = lower a.address == lower b.address

-- `executeResponderLeg` up to the swap.
pub leg_order : Deps → ℕ → AssetAmount → AssetAmount → Option LegOrder
unfolding same_address
leg_order d initiator_fips agreed_give agreed_receive = do
  executor ← d.swap_executor
  initiator ← lookup_state_by_fips initiator_fips
  deployments ← d.deployments
  give_tok ← resolve_asset deployments agreed_give.asset
  recv_tok ← resolve_asset deployments agreed_receive.asset
  let usdc = get_usdc deployments
  let give_is_usdc = same_address give_tok usdc
  require (give_is_usdc || same_address recv_tok usdc)
  token ← get_state_token deployments initiator.abbr
  amount ← big_int (if give_is_usdc then agreed_give.amount else agreed_receive.amount)
  require (if is_zero amount then false else true)
  some (record { executor = executor; usdc = usdc; token = token; amount = amount })

swapped : Deps → LegOrder → Option SwapResult → Option SwapTxLeg
swapped d o result = do
  r ← result
  some (record {
    fips = d.fips;
    swapper_address = o.executor.address;
    token_in_symbol = o.usdc.symbol;
    token_in_address = o.usdc.address;
    token_out_symbol = o.token.symbol;
    token_out_address = o.token.address;
    amount_in = o.amount;
    expected_amount_out = r.expected_out;
    tx_hash = r.tx_hash;
    block_number = r.block_number;
    status = r.status;
    quote_request_id = r.quote_request_id;
    swap_request_id = r.swap_request_id;
  })

place_leg : Deps → Option LegOrder → List ChainCall × Option SwapTxLeg
unfolding swapped
place_leg d none = ([], none)
place_leg d (some o) = (
  swap o.usdc.address o.token.address o.amount ∷ [],
  swapped d o (o.executor.swap o.usdc.address o.token.address o.amount),
)

pub execute_responder_leg : Deps → ℕ → AssetAmount → AssetAmount → List ChainCall × Option SwapTxLeg
unfolding leg_order place_leg
execute_responder_leg d initiator_fips agreed_give agreed_receive =
    place_leg d (leg_order d initiator_fips agreed_give agreed_receive)
