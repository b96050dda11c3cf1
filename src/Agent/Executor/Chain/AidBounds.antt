-- ===== src/Agent/Executor/Chain/AidBounds.antt =====
-- How much a transfer of aid may spend, and to whom.
use federated_reserve.Prelude.{
  length, All, if◌then◌else◌, ℕ, ◌+◌, ◌*◌, ◌/◌, ◌≤◌, ◌<◌, ◌≡◌, refl, inl, inr, subst, String,
  Option, none, some, List, [], ◌∷◌, true, false, arith, ◌==◌, nat_eq, Bool-cases, some-injective,
}
use federated_reserve.Shared.States.{lookup_state_by_fips, StateInfo}
use federated_reserve.Shared.Deployments.{ContractDeployments, get_usdc}
use federated_reserve.Shared.Skills.{AidSettlement}
use federated_reserve.Agent.Executor.Events.{ChainCall, transfer}
use federated_reserve.Agent.Executor.Deps.{Deps, TxReceipt, wallet_address}
use federated_reserve.Agent.Executor.Chain.{
  usdc_unit, AidOrder, aid_order, transferred, place_transfer, execute_aid_transfer, is_success,
}
use federated_reserve.Agent.Executor.Chain.Bounds.{>>=-eq-some, require-eq-some}

-- What a transfer of aid rests on.
pub record IsOwed (d : Deps) (requester_fips amount_usd : ℕ) (o : AidOrder) : Type 0 where
  pub deployments : ContractDeployments
  pub requester : StateInfo
  pub deployed : d.deployments ≡ some deployments
  pub known : lookup_state_by_fips requester_fips ≡ some requester
  pub wallet : wallet_address d requester.abbr ≡ some o.recipient
  pub in_usdc : o.usdc ≡ get_usdc deployments
  pub some_money : 0 < o.amount
  pub within : o.amount ≤ amount_usd
  pub cents_only : amount_usd < o.amount + usdc_unit

aid_order-IsOwed :
    (d : Deps) (requester_fips amount_usd : ℕ) (o : AidOrder)
    → aid_order d requester_fips amount_usd ≡ some o
    → IsOwed d requester_fips amount_usd o
unfolding aid_order
aid_order-IsOwed d requester_fips amount_usd o e =
    let (executor, _, e1) = >>=-eq-some d.swap_executor _ o e in
    let (requester, known, e2) = >>=-eq-some (lookup_state_by_fips requester_fips) _ o e1 in
    let (recipient, wallet, e3) = >>=-eq-some (wallet_address d requester.abbr) _ o e2 in
    let (deployments, deployed, e4) = >>=-eq-some d.deployments _ o e3 in
    let (positive, e5) =
      require-eq-some (if amount_usd / usdc_unit * usdc_unit == 0 then false else true) _ o e4 in
    subst (IsOwed d requester_fips amount_usd) (some-injective _ o e5) (record {
      deployments = deployments;
      requester = requester;
      deployed = deployed;
      known = known;
      wallet = wallet;
      in_usdc = refl;
      some_money = ground arith;
      within = omega arith;
      cents_only = omega arith;
    })

pub MayTransfer : Deps → ℕ → ℕ → ChainCall → Type 0
MayTransfer d requester_fips amount_usd c =
    (o : AidOrder) × IsOwed d requester_fips amount_usd o
    × (c ≡ transfer o.usdc.address o.recipient o.amount)

-- A transfer that is reported was called, to the wallet and for the amount of the report.
pub ReportsTransfer : Option AidSettlement → List ChainCall → Type 0
ReportsTransfer none calls = Unit
ReportsTransfer (some r) calls =
    (token : String) × (calls ≡ transfer token r.recipient r.amount ∷ [])

transferred-ReportsTransfer :
    (o : AidOrder) (receipt : Option TxReceipt)
    → ReportsTransfer (transferred o receipt) (transfer o.usdc.address o.recipient o.amount ∷ [])
unfolding transferred ReportsTransfer
transferred-ReportsTransfer o none = tt
transferred-ReportsTransfer o (some r) = elim (Bool-cases (is_success r.status)) [
  | inl h ↦ rw h (o.usdc.address, refl)
  | inr h ↦ rw h tt
]

pub IsBoundedTransfer : Deps → ℕ → ℕ → List ChainCall × Option AidSettlement → Type 0
IsBoundedTransfer d requester_fips amount_usd (calls, result) =
    (length calls ≤ 1)
    × All (MayTransfer d requester_fips amount_usd) calls
    × ReportsTransfer result calls

place_transfer-IsBoundedTransfer :
    (d : Deps) (requester_fips amount_usd : ℕ) (order : Option AidOrder)
    → aid_order d requester_fips amount_usd ≡ order
    → IsBoundedTransfer d requester_fips amount_usd (place_transfer order)
unfolding place_transfer IsBoundedTransfer MayTransfer ReportsTransfer
place_transfer-IsBoundedTransfer d requester_fips amount_usd none e = (omega arith, tt, tt)
place_transfer-IsBoundedTransfer d requester_fips amount_usd (some o) e = (
  omega arith,
  ((o, aid_order-IsOwed d requester_fips amount_usd o e, refl), tt),
  transferred-ReportsTransfer o _,
)

-- Whatever the chain answers, the settlement of aid transfers at most once, in USDC, to the wallet
-- of the requester's state, a positive amount that is the sum of the answer less its cents; a
-- transfer that it reports is the one that it called.
pub execute_aid_transfer-IsBoundedTransfer :
    (d : Deps) (requester_fips amount_usd : ℕ)
    → IsBoundedTransfer d requester_fips amount_usd
        (execute_aid_transfer d requester_fips amount_usd)
unfolding execute_aid_transfer
execute_aid_transfer-IsBoundedTransfer d requester_fips amount_usd =
    place_transfer-IsBoundedTransfer d requester_fips amount_usd
      (aid_order d requester_fips amount_usd) refl
