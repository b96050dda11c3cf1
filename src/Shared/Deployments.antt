-- ===== src/Shared/Deployments.antt =====
-- packages/shared/src/deployments.ts: the addresses that the deploy scripts wrote. The file itself
-- is read from disk, so the deployments are a value that the callers are given; base-unit amounts
-- stand for their decimal strings.
use federated_reserve.Prelude.{
  ℕ, String, Option, none, some, if◌then◌else◌, is_some, ◌==◌, string_eq, ◌>>=◌,
}
use federated_reserve.Prelude.Dict.{Dict, lookup}
use federated_reserve.Shared.Text.{upper, strip_suffix}

pub record StateTokenEntry : Type 0 where
  pub address : String
  pub fips : ℕ
  pub symbol : String
  pub decimals : ℕ

pub record BondEntry : Type 0 where
  pub bond_id : String
  pub address : String
  pub issuer_fips : ℕ
  pub coupon_bps : ℕ
  pub principal_usdc_base : ℕ
  pub symbol : String

pub record ContractDeployments : Type 0 where
  pub usdc_address : String
  pub usdc_decimals : ℕ
  pub state_tokens : Dict String StateTokenEntry
  pub bonds : Option (Dict String BondEntry)

pub record TokenInfo : Type 0 where
  pub abbr : String
  pub address : String
  pub decimals : ℕ
  pub symbol : String

unfoldable pub get_usdc : ContractDeployments → TokenInfo
get_usdc d = record {
  abbr = "USDC";
  address = d.usdc_address;
  decimals = d.usdc_decimals;
  symbol = "USDC";
}

-- `none` is the error on a state with no token.
unfoldable pub get_state_token : ContractDeployments → String → Option TokenInfo
unfolding upper
get_state_token d abbr = elim (lookup (upper abbr) d.state_tokens) [
  | none ↦ none
  | some e ↦
      some (record {
        abbr = upper abbr;
        address = e.address;
        decimals = e.decimals;
        symbol = e.symbol;
      })
]

-- `none` is the error on an asset that is neither USDC nor a deployed state token.
unfoldable pub resolve_asset : ContractDeployments → String → Option TokenInfo
unfolding get_usdc get_state_token upper strip_suffix
resolve_asset d asset_id =
    let id = upper asset_id in
    let base = strip_suffix "T" (strip_suffix "-TOKEN" id) in
    if id == "USDC"
    then some (get_usdc d)
    else if is_some (lookup base d.state_tokens)
    then get_state_token d base
    else if is_some (lookup id d.state_tokens)
    then get_state_token d id
    else none

unfoldable pub get_bond : ContractDeployments → String → Option BondEntry
get_bond d bond_id = d.bonds >>= lookup bond_id
