-- ===== src/Swap/Flow/Count.antt =====
-- How many transactions the flow signs.
use lazyswap.Prelude.{◌+◌, ◌≤◌, length}
use lazyswap.Prelude.Text.{Bytes}
use lazyswap.Float.{Float64}
use lazyswap.Chain.{Config}
use lazyswap.Swap.Io.{Client, World}
use lazyswap.Swap.Io.Sends.{Sends-lift}
use lazyswap.Swap.Io.Count.{SendsAtMost, SendsAtMost-after}
use lazyswap.Swap.Token.{TokenInfo}
use lazyswap.Swap.Executor.Count.{SendsAtMost-execute_full_swap}
use lazyswap.Swap.Flow.{execute_steps, execute}
use lazyswap.Swap.Flow.Safe.{Sends-convert, Sends-quote_get, Sends-get_price}

module _ (fl : Float64) (cl : Client) where
  open fl use {F}
  open cl use {Node}

  SendsAtMost-execute_steps :
      (chain : Config) (key : Bytes) (from_token to_token : TokenInfo) (usd : Bytes) (slippage : F)
      → SendsAtMost 2 (execute_steps fl cl chain key from_token to_token usd slippage)
  unfolding execute_steps
  SendsAtMost-execute_steps chain key from_token to_token usd slippage =
      SendsAtMost-after 2 _ _ (λ P. Sends-lift _)
        (λ amount.
          SendsAtMost-after 2 _ _ (λ P. Sends-lift _)
            (λ e.
              SendsAtMost-after 2 _ _ (λ P. Sends-convert fl cl _ _ _)
                (λ conv.
                  SendsAtMost-after 2 _ _
                    (λ P. Sends-quote_get fl cl _ _ _ _ (Sends-get_price cl chain))
                    (λ estimated.
                      SendsAtMost-after 2 _ _ (λ P. Sends-lift _)
                        (λ min_output.
                          SendsAtMost-execute_full_swap fl cl e from_token.address to_token.address
                            conv.token_amount min_output slippage)))))

  -- One call of Flow.Execute signs at most two transactions, on every path: whatever the
  -- node answers and whether it succeeds or fails.
  pub execute_at_most_two :
      (chain : Config) (key : Bytes) (from_token to_token : TokenInfo) (usd : Bytes) (slippage : F)
      (w : World Node)
      → length (execute fl cl chain key from_token to_token usd slippage w).1.sent
        ≤ length w.sent + 2
  unfolding execute
  execute_at_most_two chain key from_token to_token usd slippage w =
      (SendsAtMost-execute_steps chain key from_token to_token usd slippage).at w
