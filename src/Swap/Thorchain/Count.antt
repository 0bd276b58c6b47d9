-- ===== src/Swap/Thorchain/Count.antt =====
-- How much a swap to Bitcoin signs: at most an approval and a deposit.
use lazyswap.Prelude.{length, none, ℕ, ◌+◌, ◌≤◌}
use lazyswap.Prelude.Text.{Bytes}
use lazyswap.Chain.{Config}
use lazyswap.Error.{Context}
use lazyswap.Float.{Float64}
use lazyswap.Swap.Executor.{Executor}
use lazyswap.Swap.Executor.Count.{lift-IsSilent, tx_opts-IsSilent}
use lazyswap.Swap.Flow.Safe.{Sends-convert}
use lazyswap.Swap.Io.{Client, Tx, World, send, ◌>>=◌}
use lazyswap.Swap.Io.Count.{
  SendsAtMost, SendsAtMost-after, SendsAtMost-bind, SendsAtMost-if, SendsAtMost-more,
  SendsAtMost-send, SendsAtMost-silent,
}
use lazyswap.Swap.Io.Sends.{Sends-attempt, Sends-now, Sends-pure, Sends-wait, sends_rules}
use lazyswap.Swap.Thorchain.{execute_thorchain, send_thor_swap, thorchain_steps}
use lazyswap.Swap.Thorchain.Deposited.{get_inbound_address-IsSilent, get_swap_quote-IsSilent}
use lazyswap.Swap.Thorchain.Safe.{Sends-thor_settle}
use lazyswap.Swap.Token.{TokenInfo}
use lazyswap.Thorchain.{Http, InboundAddress}
use lazyswap.Thorchain.Executor.{swap_erc20_to_btc, swap_native_to_btc, thor_settle}

module _ (fl : Float64) (cl : Client) (e : Executor) where
  open cl use {Node}

  SendsAtMost-thor_settle :
      (c d : Context) (tx : Tx) (from_token amount memo : Bytes)
      → SendsAtMost 1 (send cl c tx >>= λ t. thor_settle cl d t from_token amount memo)
  SendsAtMost-thor_settle c d tx from_token amount memo =
      SendsAtMost-bind 1 0 _ _ (SendsAtMost-send cl c tx)
        (λ t. SendsAtMost-silent 0 _ (λ P. Sends-thor_settle cl d t from_token amount memo))

  SendsAtMost-swap_native :
      (vault amount memo : Bytes) → SendsAtMost 1 (swap_native_to_btc cl fl e vault amount memo)
  unfolding swap_native_to_btc
  SendsAtMost-swap_native vault amount memo = SendsAtMost-after 1 _ _ (lift-IsSilent _) (λ _.
      SendsAtMost-after 1 _ _ (lift-IsSilent _) (λ value.
        SendsAtMost-after 1 _ _ (λ P. search sends_rules)
          (λ nonce.
            SendsAtMost-after 1 _ _ (λ P. search sends_rules)
              (λ gas_price.
                SendsAtMost-after 1 _ _ (λ P. search sends_rules)
                  (λ est.
                    SendsAtMost-after 1 _ _ (λ P. search sends_rules)
                      (λ signed. SendsAtMost-thor_settle _ _ _ _ _ _))))))

  SendsAtMost-swap_erc20 :
      (router vault address symbol : Bytes) (decimals : ℕ) (amount memo : Bytes)
      → SendsAtMost 2 (swap_erc20_to_btc cl fl e router vault address symbol decimals amount memo)
  unfolding swap_erc20_to_btc
  SendsAtMost-swap_erc20 router vault address symbol decimals amount memo =
      SendsAtMost-after 2 _ _ (lift-IsSilent _) (λ _.
        SendsAtMost-after 2 _ _ (lift-IsSilent _) (λ _.
          SendsAtMost-after 2 _ _ (lift-IsSilent _) (λ value.
            SendsAtMost-after 2 _ _ (tx_opts-IsSilent cl e none) (λ auth.
              SendsAtMost-bind 1 1 _ _ (SendsAtMost-send cl _ _) (λ tx.
                SendsAtMost-after 1 _ _ (λ P. Sends-wait cl _ _)
                  (λ _. SendsAtMost-after 1 _ _ (tx_opts-IsSilent cl e none) (λ deposit_auth.
                    SendsAtMost-after 1 _ _ (λ P. Sends-now cl)
                      (λ now. SendsAtMost-thor_settle _ _ _ _ _ _))))))))

  SendsAtMost-send_thor_swap :
      (chain : Config) (inbound : InboundAddress) (token : TokenInfo) (amount memo : Bytes)
      → SendsAtMost 2 (send_thor_swap fl cl chain e inbound token amount memo)
  unfolding send_thor_swap
  SendsAtMost-send_thor_swap chain inbound token amount memo =
      SendsAtMost-if 2 _ _ _ (SendsAtMost-more 1 _ (SendsAtMost-swap_native _ _ _))
        (SendsAtMost-swap_erc20 _ _ _ _ _ _ _)

module _ (fl : Float64) (cl : Client) (http : Http cl.Node) where
  open cl use {Node}

  SendsAtMost-thorchain_steps :
      (chain_key : Bytes) (chain : Config) (key : Bytes) (token : TokenInfo) (usd btc : Bytes)
      → SendsAtMost 2 (thorchain_steps fl cl http chain_key chain key token usd btc)
  unfolding thorchain_steps
  SendsAtMost-thorchain_steps chain_key chain key token usd btc =
      SendsAtMost-after 2 _ _ (lift-IsSilent _) (λ v.
        SendsAtMost-after 2 _ _ (lift-IsSilent _) (λ _.
          SendsAtMost-after 2 _ _ (lift-IsSilent _) (λ e.
            SendsAtMost-after 2 _ _ (λ P. Sends-convert fl cl _ _ _)
              (λ conv. SendsAtMost-after 2 _ _ (lift-IsSilent _) (λ asset.
                SendsAtMost-after 2 _ _ (lift-IsSilent _) (λ scaled.
                  SendsAtMost-after 2 _ _
                    (λ P. Sends-attempt _ (get_swap_quote-IsSilent fl http asset scaled btc P))
                    (λ r. SendsAtMost-after 2 _ _ (lift-IsSilent _) (λ quote.
                      SendsAtMost-after 2 _ _ (get_inbound_address-IsSilent fl http chain_key)
                        (λ inbound.
                          SendsAtMost-bind 2 0 _ _
                            (SendsAtMost-send_thor_swap fl cl e chain inbound token
                              conv.token_amount quote.memo)
                            (λ res. SendsAtMost-silent 0 _ (λ P. Sends-pure _)))))))))))

  -- One call of ExecuteThorchain signs at most two transactions, on every path.
  pub execute_thorchain_at_most_two :
      (chain_key : Bytes) (chain : Config) (key : Bytes) (token : TokenInfo) (usd btc : Bytes)
      (w : World Node)
      → length (execute_thorchain fl cl http chain_key chain key token usd btc w).1.sent
        ≤ length w.sent + 2
  unfolding execute_thorchain
  execute_thorchain_at_most_two chain_key chain key token usd btc w =
      (SendsAtMost-thorchain_steps chain_key chain key token usd btc).at w
