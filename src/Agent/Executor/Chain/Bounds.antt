-- ===== src/Agent/Executor/Chain/Bounds.antt =====
-- How much the mint of a bond may create, and for whom.
use federated_reserve.Prelude.{
  length, All, ℕ, ◌*◌, ◌≤◌, ◌≡◌, refl, inl, inr, subst, String, Option, none, some, List, [], ◌∷◌,
  Bool, true, false, arith, ◌==◌, nat_eq, Bool-cases, nat_beq_iff, some-injective, ◌>>=◌,
}
use federated_reserve.Shared.States.{lookup_state_by_fips, StateInfo}
use federated_reserve.Shared.Deployments.{ContractDeployments, get_bond}
use federated_reserve.Shared.Skills.{BondBid, BondMintSettlementResult}
use federated_reserve.Agent.Executor.Events.{ChainCall, mint_bond}
use federated_reserve.Agent.Executor.Deps.{Deps, TxReceipt, wallet_address}
use federated_reserve.Agent.Executor.Chain.{
  usdc_unit, require, whole_dollars, BondOrder, bond_order, minted, place_mint, execute_bond_mint,
  is_success, ◌>>◌,
}

pub >>=-eq-some {ℓ κ} :
    {A : Type ℓ} {B : Type κ} (m : Option A) (f : A → Option B) (b : B)
    → (m >>= f) ≡ some b
    → (a : A) × (m ≡ some a) × (f a ≡ some b)
>>=-eq-some none f b h = cc
>>=-eq-some (some a) f b h = (a, refl, h)

pub require-eq-some {ℓ} :
    {B : Type ℓ} (t : Bool) (k : Option B) (b : B)
    → (require t >> k) ≡ some b
    → (t ≡ true) × (k ≡ some b)
require-eq-some true k b h = (refl, h)
require-eq-some false k b h = cc

whole_dollars-le : (usd n : ℕ) → whole_dollars usd ≡ some n → n * usdc_unit ≡ usd
unfolding whole_dollars
whole_dollars-le usd n e = ground arith

-- What an order for a mint rests on.
pub record IsBacked (d : Deps) (bid : BondBid) (o : BondOrder) : Type 0 where
  pub deployments : ContractDeployments
  pub bidder : StateInfo
  pub deployed : d.deployments ≡ some deployments
  pub listed : get_bond deployments bid.bond_id ≡ some o.bond
  pub own : o.bond.issuer_fips ≡ d.fips
  pub known : lookup_state_by_fips bid.bidder_fips ≡ some bidder
  pub wallet : wallet_address d bidder.abbr ≡ some o.recipient
  pub within_offer : o.amount ≤ o.bond.principal_usdc_base
  pub within_bid : o.amount ≤ bid.principal_usd

bond_order-IsBacked :
    (d : Deps) (bid : BondBid) (o : BondOrder) → bond_order d bid ≡ some o → IsBacked d bid o
unfolding bond_order
bond_order-IsBacked d bid o e =
    let (executor, _, e1) = >>=-eq-some d.swap_executor _ o e in
    let (deployments, deployed, e2) = >>=-eq-some d.deployments _ o e1 in
    let (bond, listed, e3) = >>=-eq-some (get_bond deployments bid.bond_id) _ o e2 in
    let (own, e4) = require-eq-some (bond.issuer_fips == d.fips) _ o e3 in
    let (bidder, known, e5) = >>=-eq-some (lookup_state_by_fips bid.bidder_fips) _ o e4 in
    let (recipient, wallet, e6) = >>=-eq-some (wallet_address d bidder.abbr) _ o e5 in
    let (dollars, whole, e7) = >>=-eq-some (whole_dollars bid.principal_usd) _ o e6 in
    subst (IsBacked d bid) (some-injective _ o e7) (record {
      deployments = deployments;
      bidder = bidder;
      deployed = deployed;
      listed = listed;
      own = (nat_beq_iff bond.issuer_fips d.fips).0 own;
      known = known;
      wallet = wallet;
      within_offer = ground arith;
      within_bid = ground (arith, whole_dollars-le bid.principal_usd dollars whole);
    })

pub MayMint : Deps → BondBid → ChainCall → Type 0
MayMint d bid c =
    (o : BondOrder) × IsBacked d bid o × (c ≡ mint_bond o.bond.address o.recipient o.amount)

-- A mint that is reported was called, for the bond and the amount of the report.
unfoldable pub ReportsMint : Option BondMintSettlementResult → List ChainCall → Type 0
ReportsMint none calls = Unit
ReportsMint (some r) calls =
    (recipient : String) × (calls ≡ mint_bond r.bond_address recipient r.principal_usdc_base ∷ [])

minted-ReportsMint :
    (o : BondOrder) (receipt : Option TxReceipt)
    → ReportsMint (minted o receipt) (mint_bond o.bond.address o.recipient o.amount ∷ [])
unfolding minted ReportsMint
minted-ReportsMint o none = tt
minted-ReportsMint o (some r) = elim (Bool-cases (is_success r.status)) [
  | inl h ↦ rw h (o.recipient, refl)
  | inr h ↦ rw h tt
]

unfoldable pub IsBoundedMint :
    Deps → BondBid → List ChainCall × Option BondMintSettlementResult → Type 0
IsBoundedMint d bid (calls, result) =
    (length calls ≤ 1) × All (MayMint d bid) calls × ReportsMint result calls

place_mint-IsBoundedMint :
    (d : Deps) (bid : BondBid) (order : Option BondOrder)
    → bond_order d bid ≡ order
    → IsBoundedMint d bid (place_mint order)
unfolding place_mint IsBoundedMint MayMint ReportsMint
place_mint-IsBoundedMint d bid none e = (omega arith, tt, tt)
place_mint-IsBoundedMint d bid (some o) e =
    (omega arith, ((o, bond_order-IsBacked d bid o e, refl), tt), minted-ReportsMint o _)

-- Whatever the chain answers, the settlement of a bid mints at most once, and only a listed bond
-- that this state issued, to the wallet of the bidder's state, for at most the principal on offer
-- and at most the principal of the bid; a mint that it reports is the one that it called.
pub execute_bond_mint-IsBoundedMint :
    (d : Deps) (bid : BondBid) → IsBoundedMint d bid (execute_bond_mint d bid)
unfolding execute_bond_mint
execute_bond_mint-IsBoundedMint d bid = place_mint-IsBoundedMint d bid (bond_order d bid) refl
