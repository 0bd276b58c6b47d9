-- ===== src/Chain.antt =====
-- internal/chain/config.go: the registry of chains. A Go map is an association list with one entry
-- for each key; a map literal iterates in no fixed order, and nothing here depends on it.
pub mod Laws
use lazyswap.Prelude.{ℕ, Bool, true, false, Option, none, some, List, [], ◌∷◌, if◌then◌else◌, null}
use lazyswap.Prelude.Text.{Bytes, codes, text_eq}

pub record TokenInfo : Type 0 where
  pub address : Bytes
  pub decimals : ℕ
  pub symbol : Bytes

abbrev token : Bytes → ℕ → Bytes → TokenInfo
token address decimals symbol = record { address = address; decimals = decimals; symbol = symbol }

pub record Config : Type 0 where
  pub chain_id : ℕ
  pub name : Bytes
  pub rpc_url : Bytes
  pub router_address : Bytes
  pub wrapped_native : Bytes
  pub native_symbol : Bytes
  pub native_decimals : ℕ
  pub explorer_api_url : Bytes
  pub stablecoin_addr : Bytes
  pub pass_address : Bytes
  pub open_ocean_key : Bytes
  pub tokens : List (Bytes × TokenInfo)
  pub recommended_tokens : List TokenInfo

-- the read `m[key]` of a map with text keys
unfoldable pub lookup {ℓ} : {V : Type ℓ} → Bytes → List (Bytes × V) → Option V
unfolding text_eq
lookup key [] = none
lookup key ((k, v) ∷ m) = if text_eq k key then some v else lookup key m

unfoldable pub ethereum : Config
ethereum = record {
  chain_id = 1;
  name = codes "Ethereum";
  rpc_url = codes "https://ethereum-rpc.publicnode.com";
  router_address = codes "0x7a250d5630B4cF539739dF2C5dAcb4c659F2488D";
  wrapped_native = codes "0xC02aaA39b223FE8D0A0e5C4F27eAD9083C756Cc2";
  native_symbol = codes "ETH";
  native_decimals = 18;
  explorer_api_url = codes "https://api.etherscan.io/api";
  stablecoin_addr = codes "0xA0b86991c6218b36c1d19D4a2e9Eb0cE3606eB48";
  pass_address = codes "";
  open_ocean_key = codes "eth";
  tokens =
      (codes "USDC", token (codes "0xA0b86991c6218b36c1d19D4a2e9Eb0cE3606eB48") 6 (codes "USDC"))
      ∷ (codes "WETH", token (codes "0xC02aaA39b223FE8D0A0e5C4F27eAD9083C756Cc2") 18 (codes "WETH"))
      ∷ (codes "DAI", token (codes "0x6B175474E89094C44Da98b954EedeAC495271d0F") 18 (codes "DAI"))
      ∷ (codes "USDT", token (codes "0xdAC17F958D2ee523a2206206994597C13D831ec7") 6 (codes "USDT"))
      ∷ [];
  recommended_tokens =
      token (codes "0xdAC17F958D2ee523a2206206994597C13D831ec7") 6 (codes "USDT")
      ∷ token (codes "0xA0b86991c6218b36c1d19D4a2e9Eb0cE3606eB48") 6 (codes "USDC")
      ∷ token (codes "0xC02aaA39b223FE8D0A0e5C4F27eAD9083C756Cc2") 18 (codes "WETH")
      ∷ token (codes "0x2260FAC5E5542a773Aa44fBCfeDf7C193bc2C599") 8 (codes "WBTC")
      ∷ token (codes "0x6B175474E89094C44Da98b954EedeAC495271d0F") 18 (codes "DAI")
      ∷ token (codes "0x514910771AF9Ca656af840dff83E8264EcF986CA") 18 (codes "LINK")
      ∷ token (codes "0x1f9840a85d5aF5bf1D1762F925BDADdC4201F984") 18 (codes "UNI")
      ∷ token (codes "0x95aD61b0a150d79219dCF64E1E6Cc01f0B64C4cE") 18 (codes "SHIB")
      ∷ token (codes "0x6982508145454Ce325dDbE47a25d4ec3d2311933") 18 (codes "PEPE")
      ∷ token (codes "0x7D1AfA7B718fb893dB30A3aBc0Cfc608AaCfeBB0") 18 (codes "MATIC")
      ∷ token (codes "0xcf0c122c6b73ff809c693db761e7baebe62b6a2e") 9 (codes "FLOKI")
      ∷ token (codes "0x4507cEf57C46789eF8d1a19EA45f4216bae2B528") 18 (codes "TOKEN")
      ∷ [];
}

unfoldable pub bsc : Config
bsc = record {
  chain_id = 56;
  name = codes "BSC";
  rpc_url = codes "https://bsc-rpc.publicnode.com";
  router_address = codes "0x10ED43C718714eb63d5aA57B78B54704E256024E";
  wrapped_native = codes "0xbb4CdB9CBd36B01bD1cBaEBF2De08d9173bc095c";
  native_symbol = codes "BNB";
  native_decimals = 18;
  explorer_api_url = codes "https://api.bscscan.com/api";
  stablecoin_addr = codes "0x55d398326f99059fF775485246999027B3197955";
  pass_address = codes "";
  open_ocean_key = codes "bsc";
  tokens =
      (codes "USDC", token (codes "0x8AC76a51cc950d9822D68b83fE1Ad97B32Cd580d") 18 (codes "USDC"))
      ∷ (codes "WBNB", token (codes "0xbb4CdB9CBd36B01bD1cBaEBF2De08d9173bc095c") 18 (codes "WBNB"))
      ∷ (codes "BUSD", token (codes "0xe9e7CEA3DedcA5984780Bafc599bD69ADd087D56") 18 (codes "BUSD"))
      ∷ (codes "USDT", token (codes "0x55d398326f99059fF775485246999027B3197955") 18 (codes "USDT"))
      ∷ (codes "CAKE", token (codes "0x0E09FaBB73Bd3Ade0a17ECC321fD13a19e81cE82") 18 (codes "CAKE"))
      ∷ [];
  recommended_tokens =
      token (codes "0x8AC76a51cc950d9822D68b83fE1Ad97B32Cd580d") 18 (codes "USDC")
      ∷ token (codes "0x55d398326f99059fF775485246999027B3197955") 18 (codes "USDT")
      ∷ token (codes "0xbb4CdB9CBd36B01bD1cBaEBF2De08d9173bc095c") 18 (codes "WBNB")
      ∷ token (codes "0x7130d2A12B9BCbFAe4f2634d864A1Ee1Ce3Ead9c") 18 (codes "BTCB")
      ∷ token (codes "0xfb5B838b6cfEEdC2873aB27866079AC55363D37E") 9 (codes "FLOKI")
      ∷ token (codes "0x4507cEf57C46789eF8d1a19EA45f4216bae2B528") 9 (codes "TOKEN")
      ∷ token (codes "0xbA2aE424d960c26247Dd6c32edC70B295c744C43") 8 (codes "DOGE")
      ∷ token (codes "0x0E09FaBB73Bd3Ade0a17ECC321fD13a19e81cE82") 18 (codes "CAKE")
      ∷ token (codes "0x1D2F0da169ceB9fC7B3144628dB156f3F6c60dBE") 18 (codes "XRP")
      ∷ token (codes "0x3EE2200Efb3400fAbB9AacF31297cBdD1d435D47") 18 (codes "ADA")
      ∷ [];
}

unfoldable pub bsc_testnet : Config
bsc_testnet = record {
  chain_id = 97;
  name = codes "BSC Testnet";
  rpc_url = codes "https://bsc-testnet-rpc.publicnode.com";
  router_address = codes "0xD99D1c33F9fC3444f8101754aBC46c52416550D1";
  wrapped_native = codes "0xae13d989daC2f0dEbFf460aC112a837C89BAa7cd";
  native_symbol = codes "tBNB";
  native_decimals = 18;
  explorer_api_url = codes "https://api-testnet.bscscan.com/api";
  stablecoin_addr = codes "0x337610d27c682E347C9cD60BD4b3b107C9d34dD1";
  pass_address = codes "0x6a890237d707a1228ef39b44e44685919d22426e";
  open_ocean_key = codes "";
  tokens =
      (codes "USDC", token (codes "0x64544969ed7EBf5f083679233325356EbE738930") 18 (codes "USDC"))
      ∷ (codes "WBNB", token (codes "0xae13d989daC2f0dEbFf460aC112a837C89BAa7cd") 18 (codes "WBNB"))
      ∷ (codes "USDT", token (codes "0x337610d27c682E347C9cD60BD4b3b107C9d34dD1") 18 (codes "USDT"))
      ∷ [];
  recommended_tokens =
      token (codes "0x337610d27c682E347C9cD60BD4b3b107C9d34dD1") 18 (codes "USDT")
      ∷ token (codes "0x64544969ed7EBf5f083679233325356EbE738930") 18 (codes "USDC")
      ∷ token (codes "0xae13d989daC2f0dEbFf460aC112a837C89BAa7cd") 18 (codes "WBNB")
      ∷ [];
}

unfoldable pub sepolia : Config
sepolia = record {
  chain_id = 11155111;
  name = codes "Ethereum Sepolia";
  rpc_url = codes "https://ethereum-sepolia-rpc.publicnode.com";
  router_address = codes "0xeE567Fe1712Faf6149d80dA1E6934E354124CfE3";
  wrapped_native = codes "0xfFf9976782d46CC05630D1f6eBAb18b2324d6B14";
  native_symbol = codes "ETH";
  native_decimals = 18;
  explorer_api_url = codes "https://api-sepolia.etherscan.io/api";
  stablecoin_addr = codes "0x1c7D4B196Cb0C7B01d743Fbc6116a902379C7238";
  pass_address = codes "";
  open_ocean_key = codes "";
  tokens =
      (codes "USDC", token (codes "0x1c7D4B196Cb0C7B01d743Fbc6116a902379C7238") 6 (codes "USDC"))
      ∷ (codes "WETH", token (codes "0xfFf9976782d46CC05630D1f6eBAb18b2324d6B14") 18 (codes "WETH"))
      ∷ [];
  recommended_tokens =
      token (codes "0x1c7D4B196Cb0C7B01d743Fbc6116a902379C7238") 6 (codes "USDC")
      ∷ token (codes "0xfFf9976782d46CC05630D1f6eBAb18b2324d6B14") 18 (codes "WETH")
      ∷ [];
}

abbrev pub default_key : Bytes
default_key = codes "bsc"

-- CHAINS
unfoldable pub chains : List (Bytes × Config)
chains =
    (codes "ethereum", ethereum)
    ∷ (codes "bsc", bsc)
    ∷ (codes "bsc_testnet", bsc_testnet)
    ∷ (codes "sepolia", sepolia)
    ∷ []

unfoldable pub ordered_keys : List Bytes
ordered_keys = codes "ethereum" ∷ codes "bsc" ∷ codes "bsc_testnet" ∷ codes "sepolia" ∷ []

-- Has
unfoldable pub has : Bytes → Bool
unfolding lookup chains
has key = elim (lookup key chains) [ none ↦ false | some c ↦ true ]

-- the endpoint that LAZYSWAP_RPC_URL gives, where it is not empty
abbrev override_rpc : Bytes → Config → Config
override_rpc rpc c = if null rpc then c else record c { rpc_url = rpc }

-- The environment variable is an argument. `CHAINS[DefaultKey]` is the entry "bsc".
unfoldable pub get : (rpc : Bytes) → Bytes → Config
unfolding lookup chains
get rpc key = elim (lookup key chains) [ none ↦ override_rpc rpc bsc | some c ↦ override_rpc rpc c ]

-- The search of NextKey: the key that follows `current`, the first one after the last.
unfoldable pub next_from : List Bytes → Bytes → Bytes → Bytes
unfolding text_eq
next_from [] first current = first
next_from (k ∷ []) first current = first
next_from (k ∷ j ∷ rest) first current =
    if text_eq k current then j else next_from (j ∷ rest) first current

unfoldable pub next_key : Bytes → Bytes
unfolding next_from
next_key current = next_from ordered_keys (codes "ethereum") current
