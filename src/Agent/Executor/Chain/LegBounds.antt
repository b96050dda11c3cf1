-- ===== src/Agent/Executor/Chain/LegBounds.antt =====
-- What the responder's leg of a swap may spend, and on what.
use federated_reserve.Prelude.{
  length, All, ◌||◌, if◌then◌else◌, ℕ, ◌≤◌, ◌≡◌, ◌⊎◌, refl, inl, inr, subst, Option, none, some,
  List, [], ◌∷◌, true, false, arith, nat_eq, Bool-cases, some-injective,
}
use federated_reserve.Shared.BigInt.{big_int}
use federated_reserve.Shared.States.{lookup_state_by_fips, StateInfo}
use federated_reserve.Shared.Deployments.{
  ContractDeployments, TokenInfo, get_usdc, get_state_token, resolve_asset,
}
use federated_reserve.Shared.Skills.{AssetAmount, SwapTxLeg}
use federated_reserve.Agent.Executor.Events.{ChainCall, swap}
use federated_reserve.Agent.Executor.Deps.{Deps, SwapResult}
use federated_reserve.Agent.Executor.Chain.{
  LegOrder, leg_order, swapped, place_leg, execute_responder_leg, same_address, is_zero,
}
use federated_reserve.Agent.Executor.Chain.Bounds.{>>=-eq-some, require-eq-some}

-- What the leg of a swap rests on.
pub record IsAgreed (d : Deps) (initiator_fips : ℕ) (agreed_give agreed_receive : AssetAmount)
    (o : LegOrder) : Type 0 where
  pub deployments : ContractDeployments
  pub initiator : StateInfo
  pub side : AssetAmount
  pub side_token : TokenInfo
  pub deployed : d.deployments ≡ some deployments
  pub known : lookup_state_by_fips initiator_fips ≡ some initiator
  pub agreed : (side ≡ agreed_give) ⊎ (side ≡ agreed_receive)
  pub resolved : resolve_asset deployments side.asset ≡ some side_token
  pub side_is_usdc : same_address side_token (get_usdc deployments) ≡ true
  pub spends_usdc : o.usdc ≡ get_usdc deployments
  pub buys : get_state_token deployments initiator.abbr ≡ some o.token
  pub amount_agreed : big_int side.amount ≡ some o.amount
  pub not_zero : is_zero o.amount ≡ false

leg_order-IsAgreed :
    (d : Deps) (initiator_fips : ℕ) (agreed_give agreed_receive : AssetAmount) (o : LegOrder)
    → leg_order d initiator_fips agreed_give agreed_receive ≡ some o
    → IsAgreed d initiator_fips agreed_give agreed_receive o
unfolding leg_order
leg_order-IsAgreed d initiator_fips agreed_give agreed_receive o e =
    let (executor, _, e1) = >>=-eq-some d.swap_executor _ o e in
    let (initiator, known, e2) = >>=-eq-some (lookup_state_by_fips initiator_fips) _ o e1 in
    let (deployments, deployed, e3) = >>=-eq-some d.deployments _ o e2 in
    let (give_tok, gives, e4) = >>=-eq-some (resolve_asset deployments agreed_give.asset) _ o e3 in
    let (recv_tok, receives, e5) =
      >>=-eq-some (resolve_asset deployments agreed_receive.asset) _ o e4 in
    let usdc = get_usdc deployments in
    let (one_usdc, e6) =
      require-eq-some (same_address give_tok usdc || same_address recv_tok usdc) _ o e5 in
    let (token, buys, e7) = >>=-eq-some (get_state_token deployments initiator.abbr) _ o e6 in
    let (amount, value, e8) =
      >>=-eq-some
        (big_int (if same_address give_tok usdc then agreed_give.amount else agreed_receive.amount))
        _ o e7 in
    let (not_zero, e9) = require-eq-some (if is_zero amount then false else true) _ o e8 in
    elim (Bool-cases (same_address give_tok usdc)) [
      | inl h ↦
          subst (IsAgreed d initiator_fips agreed_give agreed_receive) (some-injective _ o e9)
            (record {
              deployments = deployments;
              initiator = initiator;
              side = agreed_give;
              side_token = give_tok;
              deployed = deployed;
              known = known;
              agreed = inl refl;
              resolved = gives;
              side_is_usdc = h;
              spends_usdc = refl;
              buys = buys;
              amount_agreed =
                  subst
                    (λ b.
                      big_int (if b then agreed_give.amount else agreed_receive.amount)
                      ≡ some amount)
                    h value;
              not_zero = ground arith;
            })
      | inr h ↦
          subst (IsAgreed d initiator_fips agreed_give agreed_receive) (some-injective _ o e9)
            (record {
              deployments = deployments;
              initiator = initiator;
              side = agreed_receive;
              side_token = recv_tok;
              deployed = deployed;
              known = known;
              agreed = inr refl;
              resolved = receives;
              side_is_usdc = subst (λ b. (b || same_address recv_tok usdc) ≡ true) h one_usdc;
              spends_usdc = refl;
              buys = buys;
              amount_agreed =
                  subst
                    (λ b.
                      big_int (if b then agreed_give.amount else agreed_receive.amount)
                      ≡ some amount)
                    h value;
              not_zero = ground arith;
            })
    ]

pub MaySwap : Deps → ℕ → AssetAmount → AssetAmount → ChainCall → Type 0
MaySwap d initiator_fips agreed_give agreed_receive c =
    (o : LegOrder) × IsAgreed d initiator_fips agreed_give agreed_receive o
    × (c ≡ swap o.usdc.address o.token.address o.amount)

-- A leg that is reported was called, with the tokens and the amount of the report.
pub ReportsLeg : ℕ → Option SwapTxLeg → List ChainCall → Type 0
ReportsLeg fips none calls = Unit
ReportsLeg fips (some r) calls =
    (r.fips ≡ fips) × (calls ≡ swap r.token_in_address r.token_out_address r.amount_in ∷ [])

swapped-ReportsLeg :
    (d : Deps) (o : LegOrder) (result : Option SwapResult)
    → ReportsLeg d.fips (swapped d o result) (swap o.usdc.address o.token.address o.amount ∷ [])
unfolding swapped ReportsLeg
swapped-ReportsLeg d o none = tt
swapped-ReportsLeg d o (some r) = (refl, refl)

pub IsBoundedLeg : Deps → ℕ → AssetAmount → AssetAmount → List ChainCall × Option SwapTxLeg → Type 0
IsBoundedLeg d initiator_fips agreed_give agreed_receive (calls, result) =
    (length calls ≤ 1)
    × All (MaySwap d initiator_fips agreed_give agreed_receive) calls
    × ReportsLeg d.fips result calls

place_leg-IsBoundedLeg :
    (d : Deps) (initiator_fips : ℕ) (agreed_give agreed_receive : AssetAmount)
    (order : Option LegOrder)
    → leg_order d initiator_fips agreed_give agreed_receive ≡ order
    → IsBoundedLeg d initiator_fips agreed_give agreed_receive (place_leg d order)
unfolding place_leg IsBoundedLeg MaySwap ReportsLeg
place_leg-IsBoundedLeg d initiator_fips agreed_give agreed_receive none e = (omega arith, tt, tt)
place_leg-IsBoundedLeg d initiator_fips agreed_give agreed_receive (some o) e = (
  omega arith,
  ((o, leg_order-IsAgreed d initiator_fips agreed_give agreed_receive o e, refl), tt),
  swapped-ReportsLeg d o _,
)

-- Whatever the trading service answers, the responder swaps at most once per settlement: USDC for
-- the token of the initiator's state, for exactly the amount, not zero, of the agreed side that is
-- USDC; a leg that it reports is the one that it called.
pub execute_responder_leg-IsBoundedLeg :
    (d : Deps) (initiator_fips : ℕ) (agreed_give agreed_receive : AssetAmount)
    → IsBoundedLeg d initiator_fips agreed_give agreed_receive
        (execute_responder_leg d initiator_fips agreed_give agreed_receive)
unfolding execute_responder_leg
execute_responder_leg-IsBoundedLeg d initiator_fips agreed_give agreed_receive =
    place_leg-IsBoundedLeg d initiator_fips agreed_give agreed_receive
      (leg_order d initiator_fips agreed_give agreed_receive) refl
