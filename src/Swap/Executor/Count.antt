-- ===== src/Swap/Executor/Count.antt =====
-- A full swap signs at most an approval and a swap.
use lazyswap.Prelude.{Option, none, some}
use lazyswap.Prelude.Int.{ℤ}
use lazyswap.Prelude.Text.{Bytes}
use lazyswap.Prelude.Result.{Result}
use lazyswap.Float.{Float64}
use lazyswap.Error.{Error, Context}
use lazyswap.Swap.Io.{Tx, Client, lift, ◌>>=◌, send}
use lazyswap.Swap.Io.Sends.{sends_rules, Sends-lift, Sends-pure, Sends-now}
use lazyswap.Swap.Io.Count.{
  SendsAtMost, IsSilent, SendsAtMost-silent, SendsAtMost-more, SendsAtMost-label, SendsAtMost-if,
  SendsAtMost-bind, SendsAtMost-after, SendsAtMost-send,
}
use lazyswap.Swap.Executor.{
  Executor, tx_opts, settle, approve_token, execute_swap, execute_buy_with_native,
  execute_sell_for_native, ensure_allowance, execute_full_swap,
}
use lazyswap.Swap.Executor.Safe.{Sends-check_allowance, Sends-settle}

module _ {Node : Type 0} where
  pub lift-IsSilent : {A : Type 0} (r : Result Error A) → IsSilent (lift {Node = Node} r)
  lift-IsSilent r P = Sends-lift r

module _ (cl : Client) where
  open cl use {Node}

  pub tx_opts-IsSilent : (e : Executor) (value : Option ℤ) → IsSilent (tx_opts cl e value)
  unfolding tx_opts
  tx_opts-IsSilent e value P = search sends_rules

  SendsAtMost-settle :
      (c : Context) (tx : Tx) (a b d f : Bytes)
      → SendsAtMost 1 (send cl c tx >>= λ t. settle cl t a b d f)
  SendsAtMost-settle c tx a b d f =
      SendsAtMost-bind 1 0 _ _ (SendsAtMost-send cl c tx)
        (λ t. SendsAtMost-silent 0 _ (λ P. Sends-settle cl t a b d f))

  SendsAtMost-approve_token :
      (e : Executor) (token amount : Bytes) → SendsAtMost 1 (approve_token cl e token amount)
  unfolding approve_token
  SendsAtMost-approve_token e token amount = SendsAtMost-after 1 _ _ (lift-IsSilent _) (λ raw.
      SendsAtMost-after 1 _ _ (tx_opts-IsSilent e none) (λ auth.
        SendsAtMost-bind 1 0 _ _ (SendsAtMost-send cl _ _)
          (λ tx. SendsAtMost-silent 0 _ (λ P. search sends_rules))))

module _ (fl : Float64) (cl : Client) (e : Executor) where
  open fl use {F}
  open cl use {Node}

  SendsAtMost-execute_swap :
      (from_token to_token input min_output : Bytes) (slippage : F)
      → SendsAtMost 1 (execute_swap fl cl e from_token to_token input min_output slippage)
  unfolding execute_swap
  SendsAtMost-execute_swap from_token to_token input min_output slippage =
      SendsAtMost-after 1 _ _ (lift-IsSilent _) (λ _.
        SendsAtMost-after 1 _ _ (λ P. Sends-check_allowance cl e _ _)
          (λ current. SendsAtMost-after 1 _ _ (lift-IsSilent _) (λ _.
            SendsAtMost-after 1 _ _ (lift-IsSilent _) (λ amount_in.
              SendsAtMost-after 1 _ _ (lift-IsSilent _) (λ out.
                SendsAtMost-after 1 _ _ (λ P. Sends-now cl)
                  (λ now.
                    SendsAtMost-after 1 _ _ (tx_opts-IsSilent cl e none)
                      (λ auth. SendsAtMost-settle cl _ _ _ _ _ _)))))))

  SendsAtMost-execute_buy_with_native :
      (to_token input min_output : Bytes) (slippage : F)
      → SendsAtMost 1 (execute_buy_with_native fl cl e to_token input min_output slippage)
  unfolding execute_buy_with_native
  SendsAtMost-execute_buy_with_native to_token input min_output slippage =
      SendsAtMost-after 1 _ _ (lift-IsSilent _) (λ _.
        SendsAtMost-after 1 _ _ (lift-IsSilent _) (λ _.
          SendsAtMost-after 1 _ _ (lift-IsSilent _) (λ out.
            SendsAtMost-after 1 _ _ (lift-IsSilent _) (λ amount_in.
              SendsAtMost-after 1 _ _ (λ P. Sends-now cl)
                (λ now.
                  SendsAtMost-after 1 _ _ (tx_opts-IsSilent cl e (some amount_in))
                    (λ auth. SendsAtMost-settle cl _ _ _ _ _ _))))))

  SendsAtMost-execute_sell_for_native :
      (from_token input min_output : Bytes) (slippage : F)
      → SendsAtMost 1 (execute_sell_for_native fl cl e from_token input min_output slippage)
  unfolding execute_sell_for_native
  SendsAtMost-execute_sell_for_native from_token input min_output slippage =
      SendsAtMost-after 1 _ _ (lift-IsSilent _) (λ _.
        SendsAtMost-after 1 _ _ (lift-IsSilent _) (λ _.
          SendsAtMost-after 1 _ _ (lift-IsSilent _) (λ amount_in.
            SendsAtMost-after 1 _ _ (lift-IsSilent _) (λ out.
              SendsAtMost-after 1 _ _ (λ P. Sends-now cl)
                (λ now.
                  SendsAtMost-after 1 _ _ (tx_opts-IsSilent cl e none)
                    (λ auth. SendsAtMost-settle cl _ _ _ _ _ _))))))

  SendsAtMost-ensure_allowance :
      (from_token input : Bytes) → SendsAtMost 1 (ensure_allowance fl cl e from_token input)
  unfolding ensure_allowance
  SendsAtMost-ensure_allowance from_token input =
      SendsAtMost-after 1 _ _ (λ P. Sends-check_allowance cl e _ _)
        (λ current.
          SendsAtMost-if 1 _ _ _
            (SendsAtMost-bind 1 0 _ _
              (SendsAtMost-label 1 _ _ (SendsAtMost-approve_token cl e from_token input))
              (λ _. SendsAtMost-silent 0 _ (λ P. Sends-pure tt)))
            (SendsAtMost-silent 1 _ (λ P. Sends-pure tt)))

  -- ExecuteFullSwap signs at most two transactions, on every path.
  pub SendsAtMost-execute_full_swap :
      (from_token to_token input min_output : Bytes) (slippage : F)
      → SendsAtMost 2 (execute_full_swap fl cl e from_token to_token input min_output slippage)
  unfolding execute_full_swap
  SendsAtMost-execute_full_swap from_token to_token input min_output slippage =
      SendsAtMost-after 2 _ _ (lift-IsSilent _) (λ _.
        SendsAtMost-if 2 _ _ _
          (SendsAtMost-more 1 _
            (SendsAtMost-execute_buy_with_native to_token input min_output slippage))
          (SendsAtMost-bind 1 1 _ _ (SendsAtMost-ensure_allowance from_token input) (λ _.
            SendsAtMost-if 1 _ _ _
              (SendsAtMost-execute_sell_for_native from_token input min_output slippage)
              (SendsAtMost-execute_swap from_token to_token input min_output slippage))))
