-- ===== src/Observer/Project.antt =====
-- packages/observer/src/store.ts: projectChainBalances and projectOgStatus, which turn what an agent
-- has written to its memory into what the observer shows.
use federated_reserve.Prelude.{
  ℕ, String, Option, none, some, Bool, false, List, [], map, if◌then◌else◌, ◌==◌, string_eq,
  or_else, ◌>>=◌, ◌∷◌,
}
use federated_reserve.Shared.Text.{strip_suffix}
use federated_reserve.Shared.Platform.{concat}
use federated_reserve.Observer.Types.{
  TokenView, BondView, OnchainBalanceView, LatestAnchorView, InftView, OgStatusView,
}

pub record MemoryToken : Type 0 where
  pub abbr : Option String
  pub address : Option String
  pub symbol : Option String
  pub balance : Option String
  pub balance_raw : Option String
  pub notional_usd : Option ℕ

pub record MemoryBond : Type 0 where
  pub bond_id : Option String
  pub symbol : Option String
  pub balance : Option String
  pub balance_raw : Option String
  pub notional_usd : Option ℕ
  pub address : Option String
  pub coupon_bps : Option ℕ

-- The members that the projection reads.
pub record MemoryChainBalances : Type 0 where
  pub fetched_at : Option String
  pub block_number : Option String
  pub chain_id : Option ℕ
  pub rpc : Option String
  pub wallet_address : Option String
  pub native_balance : Option String
  pub usdc_balance : Option String
  pub usdc_balance_raw : Option String
  pub state_token : Option MemoryToken
  pub bonds : Option (List MemoryBond)
  pub total_notional_usd : Option ℕ
  pub liquid_reserve_ratio : Option ℕ

pub record MemoryInft : Type 0 where
  pub token_id : Option String
  pub contract : Option String
  pub onchain_owner : Option String
  pub expected_owner : Option String
  pub onchain_uri : Option String
  pub initial_uri : Option String
  pub root_hash : Option String
  pub mint_tx : Option String
  pub explorer_token_url : Option String
  pub explorer_storage_url : Option String
  pub owner_matches : Option Bool

pub record MemoryOgStatus : Type 0 where
  pub fetched_at : Option String
  pub block_number : Option String
  pub chain_id : Option ℕ
  pub rpc : Option String
  pub wallet_address : Option String
  pub native_balance : Option String
  pub inft : Option MemoryInft

pub record MemoryLastAnchor : Type 0 where
  pub root_hash : Option String
  pub tx_seq : Option String
  pub storage_tx : Option String
  pub update_metadata_tx : Option String
  pub reason : Option String
  pub tick_count : Option ℕ
  pub at : Option String

-- The variables of the environment that name the explorers.
pub record Explorers : Type 0 where
  pub unichain : Option String
  pub og_chain : Option String
  pub og_storage : Option String

-- `${base}/<folder>/${key}`, where the key is a text that is there and is not empty.
unfoldable pub link : String → String → Option String → Option String
link base folder none = none
link base folder (some key) =
    if key == "" then none else some (concat (base ∷ "/" ∷ folder ∷ "/" ∷ key ∷ []))

abbrev unichain_explorer : Explorers → String
unichain_explorer env =
    or_else (env.unichain >>= (λ u. some (strip_suffix "/" u))) "https://sepolia.uniscan.xyz"

abbrev chain_base : Explorers → String
chain_base env = strip_suffix "/" (or_else env.og_chain "https://chainscan-galileo.0g.ai")

abbrev storage_base : Explorers → String
storage_base env = strip_suffix "/" (or_else env.og_storage "https://storagescan-galileo.0g.ai")

abbrev project_token : MemoryToken → TokenView
project_token t = record {
  abbr = or_else t.abbr "";
  address = or_else t.address "";
  symbol = or_else t.symbol "";
  balance = or_else t.balance "0";
  balance_raw = or_else t.balance_raw "0";
  notional_usd = or_else t.notional_usd 0;
}

abbrev project_bond : MemoryBond → BondView
project_bond b = record {
  bond_id = or_else b.bond_id "";
  symbol = or_else b.symbol "";
  balance = or_else b.balance "0";
  balance_raw = or_else b.balance_raw "0";
  notional_usd = or_else b.notional_usd 0;
  address = or_else b.address "";
  coupon_bps = or_else b.coupon_bps 0;
}

unfoldable pub project_chain_balances : Explorers → MemoryChainBalances → OnchainBalanceView
project_chain_balances env parsed =
    let wallet : String = or_else parsed.wallet_address "" in
    record {
      fetched_at = or_else parsed.fetched_at "";
      block_number = or_else parsed.block_number "0";
      chain_id = or_else parsed.chain_id 1301;
      rpc = or_else parsed.rpc "";
      wallet_address = wallet;
      native_balance = or_else parsed.native_balance "0";
      usdc_balance = or_else parsed.usdc_balance "0";
      usdc_balance_raw = or_else parsed.usdc_balance_raw "0";
      state_token = parsed.state_token >>= (λ t. some (project_token t));
      bonds = map project_bond (or_else parsed.bonds []);
      total_notional_usd = or_else parsed.total_notional_usd 0;
      liquid_reserve_ratio = or_else parsed.liquid_reserve_ratio 0;
      wallet_explorer_url = link (unichain_explorer env) "address" (some wallet);
    }

abbrev project_inft : MemoryInft → InftView
project_inft i = record {
  token_id = or_else i.token_id "";
  contract = or_else i.contract "";
  onchain_owner = or_else i.onchain_owner "";
  expected_owner = or_else i.expected_owner "";
  onchain_uri = or_else i.onchain_uri "";
  initial_uri = or_else i.initial_uri "";
  root_hash = or_else i.root_hash "";
  mint_tx = or_else i.mint_tx "";
  explorer_token_url = i.explorer_token_url;
  explorer_storage_url = i.explorer_storage_url;
  owner_matches = or_else i.owner_matches false;
}

abbrev anchor_view : Explorers → MemoryLastAnchor → String → LatestAnchorView
anchor_view env a root_hash = record {
  root_hash = root_hash;
  tx_seq = a.tx_seq;
  storage_tx = or_else a.storage_tx "";
  update_metadata_tx = or_else a.update_metadata_tx "";
  reason = or_else a.reason "";
  tick_count = or_else a.tick_count 0;
  at = or_else a.at "";
  submission_url = link (storage_base env) "submission" a.tx_seq;
  storage_tx_url = link (chain_base env) "tx" a.storage_tx;
  update_metadata_tx_url = link (chain_base env) "tx" a.update_metadata_tx;
}

-- The anchor is shown where it has a root hash that is not empty.
abbrev project_anchor : Explorers → MemoryLastAnchor → Option LatestAnchorView
project_anchor env a =
    a.root_hash >>= (λ root. if root == "" then none else some (anchor_view env a root))

unfoldable pub project_og_status :
    Explorers → MemoryOgStatus → Option MemoryLastAnchor → OgStatusView
project_og_status env parsed last_anchor = record {
  fetched_at = or_else parsed.fetched_at "";
  block_number = or_else parsed.block_number "0";
  chain_id = or_else parsed.chain_id 16602;
  rpc = or_else parsed.rpc "";
  wallet_address = or_else parsed.wallet_address "";
  native_balance = or_else parsed.native_balance "0";
  wallet_explorer_url = link (chain_base env) "address" parsed.wallet_address;
  inft = parsed.inft >>= (λ i. some (project_inft i));
  latest_anchor = last_anchor >>= project_anchor env;
}
