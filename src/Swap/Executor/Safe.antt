-- ===== src/Swap/Executor/Safe.antt =====
-- What the executor signs: only calls of the chain's router, for its own wallet, with a minimum
-- output that is not zero; and approvals of that router.
use lazyswap.Prelude.{ℕ, ◌≡◌, refl, Option, none, some, List, [], ◌∷◌}
use lazyswap.Prelude.Int.{ℤ, IsPos}
use lazyswap.Prelude.Text.{Bytes}
use lazyswap.Prelude.Result.{Result, ok, err, map_err}
use lazyswap.Float.{Float64}
use lazyswap.Balance.{UnitsError, parse_units}
use lazyswap.Error.{Error, Context, units, wrapped, transactor}
use lazyswap.Balance.Scale.{parse_units-IsPos}
use lazyswap.Swap.Io.{
  Method, approve, swap_exact_tokens_for_tokens, swap_exact_eth_for_tokens,
  swap_exact_tokens_for_eth, deposit_with_expiry, transfer, TxOpts, Tx, Returned, number, relabel,
  Client, Io, ◌>>=◌, pure, lift,
}
use lazyswap.Swap.Io.Sends.{
  Sends, AllSent, sends_rules, Sends-bind_lift, Sends-bind, Sends-send, Sends-now,
}
use lazyswap.Swap.Executor.{
  Executor, raw_amount, tx_opts, allowance_of, check_allowance, approve_token, settle, execute_swap,
  execute_buy_with_native, execute_sell_for_native, ensure_allowance, execute_full_swap,
}

-- A method is called on `router` alone, pays `wallet`, and refuses an output of zero.
-- The swap executor deposits and transfers nothing.
abbrev pub IsGuarded : (router wallet : ℕ) → Method → Type 0
IsGuarded router wallet (approve token spender amount) = spender ≡ router
IsGuarded router wallet (swap_exact_tokens_for_tokens r amount_in out path to deadline) =
    (r ≡ router) × (to ≡ wallet) × IsPos out
IsGuarded router wallet (swap_exact_eth_for_tokens r out path to deadline) =
    (r ≡ router) × (to ≡ wallet) × IsPos out
IsGuarded router wallet (swap_exact_tokens_for_eth r amount_in out path to deadline) =
    (r ≡ router) × (to ≡ wallet) × IsPos out
IsGuarded router wallet (deposit_with_expiry r vault asset amount memo expiry) = ⊥
IsGuarded router wallet (transfer to payload nonce gas gas_price) = ⊥

module _ (cl : Client) where
  open cl use {Node, hex_to_address}

  -- A transaction that is signed with the executor's key for its chain, and guarded.
  pub record IsAuthorised (e : Executor) (tx : Tx) : Type 0 where
    pub signer : tx.opts.key ≡ e.private_key
    pub chain : tx.opts.chain_id ≡ e.chain.chain_id
    pub guarded : IsGuarded (hex_to_address e.chain.router_address) e.from tx.method

module _ {Node B : Type 0} {P : List Tx → Type 0} where
  Sends-opts :
      (r : Result Error (Unit {0})) (o : TxOpts) (f : TxOpts → Io Node B)
      → Sends P (f o)
      → Sends P ((lift r >>= λ _. pure o) >>= f)
  unfolding ◌>>=◌ pure lift
  Sends-opts (ok u) o f s = record { at = s.at }
  Sends-opts (err e) o f s = record { at = λ w h. h }

module _ (cl : Client) where
  open cl use {Node, hex_to_address, new_transactor}

  -- The options of a transaction carry the executor's key and chain.
  pub Sends-tx_opts :
      {B : Type 0} {P : List Tx → Type 0} (e : Executor) (value : Option ℤ) (f : TxOpts → Io Node B)
      → Sends P (f (record { key = e.private_key; chain_id = e.chain.chain_id; value = value }))
      → Sends P (tx_opts cl e value >>= f)
  unfolding tx_opts
  Sends-tx_opts e value f s =
      Sends-opts (relabel transactor (new_transactor e.private_key e.chain.chain_id))
        (record { key = e.private_key; chain_id = e.chain.chain_id; value = value }) f s

  Sends-allowance_of : {P : List Tx → Type 0} (out : List Returned) → Sends P (allowance_of cl out)
  unfolding allowance_of
  Sends-allowance_of [] = search sends_rules
  Sends-allowance_of (number raw ∷ rest) = search sends_rules
  Sends-allowance_of (_ ∷ rest) = search sends_rules

  pub Sends-check_allowance :
      {P : List Tx → Type 0} (e : Executor) (token spender : Bytes)
      → Sends P (check_allowance cl e token spender)
  unfolding check_allowance
  Sends-check_allowance e token spender = search (sends_rules, Sends-allowance_of)

  pub Sends-settle :
      {P : List Tx → Type 0} (tx : ℕ) (from_token to_token input_amount output_amount : Bytes)
      → Sends P (settle cl tx from_token to_token input_amount output_amount)
  unfolding settle
  Sends-settle tx from_token to_token input_amount output_amount = search sends_rules

  -- An approval names the chain's router.
  Sends-approve_token :
      (e : Executor) (token amount : Bytes)
      → Sends (AllSent (IsAuthorised cl e)) (approve_token cl e token amount)
  unfolding approve_token
  Sends-approve_token e token amount = Sends-bind_lift _ _ (λ raw _. Sends-tx_opts e none _ (
      Sends-bind _ _ (Sends-send cl _ _ (record { signer = refl; chain = refl; guarded = refl }))
        (λ tx. search sends_rules)))

-- A text that some number of decimals reads as a positive amount.
abbrev pub IsProtected : Bytes → Type 0
IsProtected s = (d : ℕ) × (v : ℤ) × (parse_units s d ≡ ok v) × IsPos v

raw_amount-IsPos :
    (c : Context) (s : Bytes) (d : ℕ) (v : ℤ) → IsProtected s → raw_amount c s d ≡ ok v → IsPos v
raw_amount-IsPos c s d v (e, w, read, positive) h =
    parse_units-IsPos s e d w v read (unlabelled (parse_units s d) h) positive
  where
    unlabelled : (r : Result UnitsError ℤ) → map_err (λ e. wrapped c (units e)) r ≡ ok v → r ≡ ok v
    unlabelled (ok a) k = cc
    unlabelled (err x) k = cc

module _ (fl : Float64) (cl : Client) (e : Executor) where
  open fl use {F}

  Sends-execute_swap :
      (from_token to_token input min_output : Bytes) (slippage : F)
      → IsProtected min_output
      → Sends
          (AllSent (IsAuthorised cl e))
          (execute_swap fl cl e from_token to_token input min_output slippage)
  unfolding execute_swap
  Sends-execute_swap from_token to_token input min_output slippage p = Sends-bind_lift _ _ (λ _ _.
      Sends-bind _ _ (Sends-check_allowance cl e _ _) (λ current. Sends-bind_lift _ _ (λ _ _.
        Sends-bind_lift _ _ (λ amount_in _. Sends-bind_lift _ _ (λ out read.
          Sends-bind _ _ (Sends-now cl) (λ now. Sends-tx_opts cl e none _ (
            Sends-bind _ _
              (Sends-send cl _ _ (record {
                signer = refl;
                chain = refl;
                guarded = (refl, refl, raw_amount-IsPos _ min_output _ out p read);
              }))
              (λ tx. Sends-settle cl tx _ _ _ _))))))))

  Sends-execute_buy_with_native :
      (to_token input min_output : Bytes) (slippage : F)
      → IsProtected min_output
      → Sends
          (AllSent (IsAuthorised cl e))
          (execute_buy_with_native fl cl e to_token input min_output slippage)
  unfolding execute_buy_with_native
  Sends-execute_buy_with_native to_token input min_output slippage p = Sends-bind_lift _ _ (λ _ _.
      Sends-bind_lift _ _ (λ _ _. Sends-bind_lift _ _ (λ out read.
        Sends-bind_lift _ _ (λ amount_in _. Sends-bind _ _ (Sends-now cl) (λ now.
          Sends-tx_opts cl e (some amount_in) _ (
            Sends-bind _ _
              (Sends-send cl _ _ (record {
                signer = refl;
                chain = refl;
                guarded = (refl, refl, raw_amount-IsPos _ min_output _ out p read);
              }))
              (λ tx. Sends-settle cl tx _ _ _ _)))))))

  Sends-execute_sell_for_native :
      (from_token input min_output : Bytes) (slippage : F)
      → IsProtected min_output
      → Sends
          (AllSent (IsAuthorised cl e))
          (execute_sell_for_native fl cl e from_token input min_output slippage)
  unfolding execute_sell_for_native
  Sends-execute_sell_for_native from_token input min_output slippage p = Sends-bind_lift _ _ (λ _ _.
      Sends-bind_lift _ _ (λ _ _. Sends-bind_lift _ _ (λ amount_in _.
        Sends-bind_lift _ _ (λ out read. Sends-bind _ _ (Sends-now cl) (λ now.
          Sends-tx_opts cl e none _ (
            Sends-bind _ _
              (Sends-send cl _ _ (record {
                signer = refl;
                chain = refl;
                guarded = (refl, refl, raw_amount-IsPos _ min_output _ out p read);
              }))
              (λ tx. Sends-settle cl tx _ _ _ _)))))))

  Sends-ensure_allowance :
      (from_token input : Bytes)
      → Sends (AllSent (IsAuthorised cl e)) (ensure_allowance fl cl e from_token input)
  unfolding ensure_allowance
  Sends-ensure_allowance from_token input =
      search (sends_rules, Sends-check_allowance, Sends-approve_token) depth 7

  -- With a minimum output that is positive at some number of decimals, everything that
  -- ExecuteFullSwap signs, on every path, is authorised: approvals of the router and swaps on the
  -- router for the executor's wallet that accept no output of zero.
  pub Sends-execute_full_swap :
      (from_token to_token input min_output : Bytes) (slippage : F)
      → IsProtected min_output
      → Sends
          (AllSent (IsAuthorised cl e))
          (execute_full_swap fl cl e from_token to_token input min_output slippage)
  unfolding execute_full_swap
  Sends-execute_full_swap from_token to_token input min_output slippage p =
      search
        (
          sends_rules, Sends-execute_buy_with_native, Sends-execute_sell_for_native,
          Sends-execute_swap, Sends-ensure_allowance,
        )
        depth 7
