-- ===== src/Thorchain.antt =====
-- internal/thorchain/config.go, and the shapes of the answers of the THORnode API in provider.go,
-- which encoding/json decodes.
pub mod Numbers
pub mod Messages
pub mod Provider
pub mod Executor
pub mod Vaults
pub mod Memo
use lazyswap.Prelude.{Bool, List, [], ℕ, ◌∷◌}
use lazyswap.Prelude.Int.{ℤ}
use lazyswap.Prelude.Result.{Result}
use lazyswap.Prelude.Text.{Bytes, codes}

-- NodeURL
abbrev pub node_url : Bytes
node_url = codes "https://gateway.liquify.com/chain/thorchain_api"

-- BTCAsset
abbrev pub btc_asset : Bytes
btc_asset = codes "BTC.BTC"

-- EVMChainToThor
abbrev pub evm_chain_to_thor : List (Bytes × Bytes)
evm_chain_to_thor = (codes "ethereum", codes "ETH") ∷ (codes "bsc", codes "BSC") ∷ []

pub record SwapQuote : Type 0 where
  pub expected_output : Bytes
  pub expected_sats : ℤ
  pub min_output : Bytes
  pub total_fees : Bytes
  pub estimated_seconds : ℤ
  pub gas_limit : Bytes
  pub memo : Bytes
  pub recommended_min_in : ℤ

pub record InboundAddress : Type 0 where
  pub vault_address : Bytes
  pub chain : Bytes
  pub router : Bytes

-- the fields of quoteResponse that the program reads
pub record QuoteResponse : Type 0 where
  pub expected_amount_out : Bytes
  pub fees_total : Bytes
  pub outbound_delay_seconds : ℤ
  pub memo : Bytes
  pub recommended_min_amount_in : Bytes
  pub error : Bytes
  pub message : Bytes

-- thorNodeInboundEntry
pub record InboundEntry : Type 0 where
  pub chain : Bytes
  pub address : Bytes
  pub is_halted : Bool
  pub router : Bytes

pub record Response : Type 0 where
  pub status : ℕ
  pub body : Bytes

-- The HTTP client, which may fail to connect or to read the body; encoding/json; and the value of
-- the environment variable LAZYSWAP_THORNODE_URL, empty where it is not set.
pub record Http (Node : Type 0) : Type 0 where
  pub do_get : Bytes → Node → Result Bytes Response × Node
  pub unmarshal_quote : Bytes → Result Bytes QuoteResponse
  pub unmarshal_inbound : Bytes → Result Bytes (List InboundEntry)
  pub url_override : Bytes
