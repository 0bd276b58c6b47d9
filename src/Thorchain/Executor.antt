-- ===== src/Thorchain/Executor.antt =====
-- internal/thorchain/executor.go: the deposits that start a swap to Bitcoin. Its type Executor has
-- the fields and the constructor of that of the swap executor.
use lazyswap.Prelude.{if◌then◌else◌, none, null, some, ℕ, ◌%◌, ◌*◌, ◌+◌, ◌/◌, ◌==◌, ◌^◌}
use lazyswap.Prelude.Int.{pos, ℤ}
use lazyswap.Prelude.Result.{Result, err, ok}
use lazyswap.Prelude.Text.{Bytes, codes, trim_space}
use lazyswap.Balance.{big_string, signed}
use lazyswap.Error.{
  Context, Error, approve_call, approve_wait, deposit_call, deposit_wait, gas_price_call,
  invalid_swap_amount, memo_required, mined_wait, nonce_call, parse_native_amount,
  parse_token_amount, router_required, send_call, sign_call, vault_required,
}
use lazyswap.Float.{Float64}
use lazyswap.Swap.Executor.{Executor, bad_amount, raw_amount, tx_opts}
use lazyswap.Swap.Io.{
  Client, Io, Tx, approve, deposit_with_expiry, lift, observe, pure, relabel, send, transfer,
  unix_now, wait, ◌>>=◌,
}

-- Result
pub record ThorResult : Type 0 where
  pub tx_hash : Bytes
  pub from_token : Bytes
  pub to_token : Bytes
  pub input_amount : Bytes
  pub memo : Bytes
  pub gas_used : Bytes

-- estimateGas behind the call
unfoldable pub buffered_gas : Result Bytes ℕ → ℕ
buffered_gas (err e) = 300000
buffered_gas (ok est) = if est == 0 then 300000 else est * 12 % 2 ^ 64 / 10

module _ (fl : Float64) where
  open fl use {parse}

  -- validate
  unfoldable pub validate : (vault amount memo : Bytes) → Result Error (Unit {0})
  validate vault amount memo =
      if null (trim_space vault)
      then err vault_required
      else if bad_amount fl (parse amount)
      then err (invalid_swap_amount amount)
      else if null (trim_space memo)
      then err memo_required
      else ok tt

module _ (cl : Client) where
  open cl use {Node, hex_to_address, pending_nonce, suggest_gas_price, estimate_gas, sign_tx}

  -- a call of the node whose error is returned
  abbrev ask : {A : Type 0} → Context → (Node → Result Bytes A × Node) → Io Node A
  ask c f = do r ← observe f; lift (relabel c r)

  -- bind.WaitMined and the summary of the receipt
  unfoldable pub thor_settle : Context → ℕ → (from_token amount memo : Bytes) → Io Node ThorResult
  thor_settle c tx from_token amount memo = do
    receipt ← wait cl c tx
    pure (record {
      tx_hash = receipt.tx_hash;
      from_token = from_token;
      to_token = codes "BTC";
      input_amount = amount;
      memo = memo;
      gas_used = big_string (pos receipt.gas_used);
    })

  -- the transfer of SwapNativeToBtc
  abbrev pub memo_transfer : Executor → (to : ℕ) → ℤ → Bytes → (nonce gas : ℕ) → ℤ → Tx
  memo_transfer e to value memo nonce gas gas_price = record {
    opts = record { key = e.private_key; chain_id = e.chain.chain_id; value = some value };
    method = transfer to memo nonce gas gas_price;
  }

  -- SwapNativeToBtc
  unfoldable pub swap_native_to_btc :
      Float64 → Executor → (vault_address native_amount memo : Bytes) → Io Node ThorResult
  swap_native_to_btc fl e vault_address native_amount memo = do
    _ ← lift (validate fl vault_address native_amount memo)
    value ← lift (raw_amount parse_native_amount native_amount 18)
    let to = hex_to_address vault_address
    nonce ← ask nonce_call (pending_nonce e.chain.chain_id e.from)
    gas_price ← ask gas_price_call (suggest_gas_price e.chain.chain_id)
    est ← observe (estimate_gas e.chain.chain_id e.from to value memo)
    let tx = memo_transfer e to value memo nonce (buffered_gas est) gas_price
    _ ← lift (relabel sign_call (sign_tx tx))
    signed ← send cl send_call tx
    thor_settle mined_wait signed e.chain.native_symbol native_amount memo

  -- SwapErc20ToBtc
  unfoldable pub swap_erc20_to_btc :
      Float64
      → Executor
      → (router_address vault_address token_address token_symbol : Bytes) → ℕ
      → (token_amount memo : Bytes) → Io Node ThorResult
  swap_erc20_to_btc fl e router_address vault_address token_address token_symbol decimals
        token_amount memo =
      do
        _ ← lift (validate fl vault_address token_amount memo)
        _ ← lift (if null (trim_space router_address) then err router_required else ok tt)
        amount ← lift (raw_amount parse_token_amount token_amount decimals)
        approve_auth ← tx_opts cl e none
        approve_tx ← send cl approve_call (record {
          opts = approve_auth;
          method = approve (hex_to_address token_address) (hex_to_address router_address) amount;
        })
        _ ← wait cl approve_wait approve_tx
        deposit_auth ← tx_opts cl e none
        now ← unix_now cl
        deposit_tx ← send cl deposit_call (record {
          opts = deposit_auth;
          method =
              deposit_with_expiry (hex_to_address router_address) (hex_to_address vault_address)
                (hex_to_address token_address) amount memo (now + 15 * 60);
        })
        thor_settle deposit_wait deposit_tx token_symbol token_amount memo
