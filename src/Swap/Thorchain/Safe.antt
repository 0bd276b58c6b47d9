-- ===== src/Swap/Thorchain/Safe.antt =====
-- What a swap to Bitcoin signs: deposits into the vault that THORnode named, with the memo of the
-- quote, and approvals of the router that the deposit goes through.
use lazyswap.Prelude.{List, Option, arith, false, none, null, refl, some, ℕ, ◌≡◌}
use lazyswap.Prelude.Int.{ℤ}
use lazyswap.Prelude.Result.{Result, err, map_err, ok}
use lazyswap.Prelude.Text.{Bytes, text_eq_iff, trim_space}
use lazyswap.Balance.{UnitsError, parse_units}
use lazyswap.Chain.{Config}
use lazyswap.Error.{Context, units, wrapped}
use lazyswap.Float.{Float64}
use lazyswap.Swap.Executor.{Executor, raw_amount}
use lazyswap.Swap.Executor.Safe.{Sends-tx_opts}
use lazyswap.Swap.Io.{Client, Method, Tx, approve, deposit_with_expiry, transfer}
use lazyswap.Swap.Io.Sends.{
  AllSent, Sends, Sends-bind, Sends-bind_lift, Sends-if, Sends-now, Sends-send, Sends-wait,
  sends_rules,
}
use lazyswap.Swap.Thorchain.{router_of, send_thor_swap}
use lazyswap.Swap.Token.{TokenInfo, native_sentinel}
use lazyswap.Thorchain.{InboundAddress}
use lazyswap.Thorchain.Executor.{swap_erc20_to_btc, swap_native_to_btc, thor_settle, validate}

module _ (cl : Client) (config : Config) (inbound : InboundAddress) (token : TokenInfo) where
  open cl use {hex_to_address}

  -- A method deposits the amount that `amount` writes into the vault, under `memo`; or it approves
  -- the router of that deposit for the same amount.
  abbrev pub DepositsTo : (amount memo : Bytes) (value : Option ℤ) → Method → Type 0
  DepositsTo amount memo value (transfer to payload nonce gas gas_price) =
      (token.address ≡ native_sentinel)
      × (to ≡ hex_to_address inbound.vault_address)
      × (payload ≡ memo)
      × ((v : ℤ) × (value ≡ some v) × (parse_units amount 18 ≡ ok v))
  DepositsTo amount memo value (approve t spender v) =
      (t ≡ hex_to_address token.address)
      × (spender ≡ hex_to_address (router_of config inbound))
      × (parse_units amount token.decimals ≡ ok v)
  DepositsTo amount memo value (deposit_with_expiry r vault asset v m expiry) =
      (r ≡ hex_to_address (router_of config inbound))
      × (vault ≡ hex_to_address inbound.vault_address)
      × (asset ≡ hex_to_address token.address)
      × (m ≡ memo)
      × (parse_units amount token.decimals ≡ ok v)
  DepositsTo amount memo value _ = ⊥

  -- A transaction of the executor `e` that deposits, where neither the vault nor the memo is blank.
  pub record IsDeposit (e : Executor) (amount memo : Bytes) (tx : Tx) : Type 0 where
    pub signer : tx.opts.key ≡ e.private_key
    pub chain : tx.opts.chain_id ≡ e.chain.chain_id
    pub vault_given : null (trim_space inbound.vault_address) ≡ false
    pub memo_given : null (trim_space memo) ≡ false
    pub deposits : DepositsTo amount memo tx.opts.value tx.method

validate_given :
    (fl : Float64) (vault amount memo : Bytes) (u : Unit)
    → validate fl vault amount memo ≡ ok u
    → (null (trim_space vault) ≡ false) × (null (trim_space memo) ≡ false)
unfolding validate
validate_given fl vault amount memo u h = ground arith

read_by :
    (c : Context) (s : Bytes) (d : ℕ) (v : ℤ) → raw_amount c s d ≡ ok v → parse_units s d ≡ ok v
read_by c s d v h = unlabelled (parse_units s d) h
  where
    unlabelled : (r : Result UnitsError ℤ) → map_err (λ e. wrapped c (units e)) r ≡ ok v → r ≡ ok v
    unlabelled (ok a) k = cc
    unlabelled (err x) k = cc

module _ (cl : Client) {P : List Tx → Type 0} where
  open cl use {Node}

  pub Sends-thor_settle :
      (c : Context) (tx : ℕ) (from_token amount memo : Bytes)
      → Sends P (thor_settle cl c tx from_token amount memo)
  unfolding thor_settle
  Sends-thor_settle c tx from_token amount memo = search sends_rules

module _ (fl : Float64) (cl : Client) (config : Config) (e : Executor) (inbound : InboundAddress)
    (token : TokenInfo) (amount memo : Bytes) where
  open cl use {hex_to_address}

  abbrev pub OnlyDeposits : List Tx → Type 0
  OnlyDeposits = AllSent (IsDeposit cl config inbound token e amount memo)

  Sends-swap_native :
      token.address ≡ native_sentinel
      → Sends OnlyDeposits (swap_native_to_btc cl fl e inbound.vault_address amount memo)
  unfolding swap_native_to_btc
  Sends-swap_native native = Sends-bind_lift _ _ (λ u valid. Sends-bind_lift _ _ (λ value read.
      Sends-bind _ _ (search sends_rules) (λ nonce.
        Sends-bind _ _ (search sends_rules) (λ gas_price.
          Sends-bind _ _ (search sends_rules) (λ est. Sends-bind _ _ (search sends_rules) (λ signed.
            let (vault, given) = validate_given fl _ _ _ u valid in
            Sends-bind _ _
              (Sends-send cl _ _ (record {
                signer = refl;
                chain = refl;
                vault_given = vault;
                memo_given = given;
                deposits = (native, refl, refl, (value, refl, read_by _ amount 18 value read));
              }))
              (λ tx. Sends-thor_settle cl _ _ _ _ _)))))))

  Sends-swap_erc20 : Sends OnlyDeposits (
      swap_erc20_to_btc cl fl e
        (router_of config inbound)
        inbound.vault_address
        token.address
        token.symbol
        token.decimals
        amount
        memo)
  unfolding swap_erc20_to_btc
  Sends-swap_erc20 = Sends-bind_lift _ _ (λ u valid. Sends-bind_lift _ _ (λ _ _.
      Sends-bind_lift _ _ (λ v read.
        let (vault, given) = validate_given fl _ _ _ u valid in
        Sends-tx_opts cl e none _ (
          Sends-bind _ _
            (Sends-send cl _ _ (record {
              signer = refl;
              chain = refl;
              vault_given = vault;
              memo_given = given;
              deposits = (refl, refl, read_by _ amount token.decimals v read);
            }))
            (λ tx. Sends-bind _ _ (Sends-wait cl _ _) (λ _. Sends-tx_opts cl e none _ (
              Sends-bind _ _ (Sends-now cl) (λ now.
                Sends-bind _ _
                  (Sends-send cl _ _ (record {
                    signer = refl;
                    chain = refl;
                    vault_given = vault;
                    memo_given = given;
                    deposits = (refl, refl, refl, refl, read_by _ amount token.decimals v read);
                  }))
                  (λ tx. Sends-thor_settle cl _ _ _ _ _)))))))))

  pub Sends-send_thor_swap :
      Sends OnlyDeposits (send_thor_swap fl cl config e inbound token amount memo)
  unfolding send_thor_swap
  Sends-send_thor_swap =
      Sends-if _ _ _
        (λ native. Sends-swap_native ((text_eq_iff token.address native_sentinel).0 native))
        (λ _. Sends-swap_erc20)
