-- ===== src/Swap/Flow/Safe.antt =====
-- What the flow hands to the node.
use lazyswap.Prelude.{
  ℕ, arith, sym, ◌∙◌, subst, ◌≡◌, refl, Bool, true, false, Option, none, some, List, [], ◌∷◌,
  Bool-cases, inl, inr,
}
use lazyswap.Prelude.Int.{ℤ, pos, negsuc, is_pos, IsPos}
use lazyswap.Prelude.Text.{Bytes}
use lazyswap.Prelude.Result.{Result, ok, err, map_err}
use lazyswap.Float.{Float64}
use lazyswap.Balance.{UnitsError, parse_units}
use lazyswap.Chain.{Config}
use lazyswap.Error.{Error, units}
use lazyswap.Swap.Io.{Returned, amounts, Client, World, Tx, Io}
use lazyswap.Swap.Io.Sends.{Sends, sends_rules, AllSent, Sends-bind_lift, Sends-bind}
use lazyswap.Swap.Token.{TokenInfo}
use lazyswap.Swap.Quote.{
  reduced, checked_output, min_output_of, min_output_for, price_of, get_price, quote_get,
}
use lazyswap.Swap.Executor.{Executor, new_executor, execute_full_swap}
use lazyswap.Swap.Executor.Safe.{IsAuthorised, IsProtected, Sends-execute_full_swap}
use lazyswap.Swap.Flow.{
  call_amounts_out, try_route, find_amount, convert_usd_to_token_amount, check_needs_approval,
  quote, execute_steps, execute,
}

IsPos-of_is_pos : (v : ℤ) → is_pos v ≡ true → IsPos v
IsPos-of_is_pos (pos n) h = ground arith
IsPos-of_is_pos (negsuc n) h = cc

read_ok :
    (fl : Float64) (s t : Bytes) (decimals : ℕ) (r : Result UnitsError ℤ)
    → parse_units s decimals ≡ r
    → checked_output fl s (map_err units r) ≡ ok t
    → IsProtected t
read_ok fl s t decimals (err x) e h = cc
read_ok fl s t decimals (ok v) e h = elim (Bool-cases (is_pos v)) [
  | inl p ↦
      let same : s ≡ t = ground arith in
      subst IsProtected same (decimals, v, e, IsPos-of_is_pos v p)
  | inr p ↦ absurd (no_text p h)
]
  where
    no_text : is_pos v ≡ false → checked_output fl s (ok v) ≡ ok t → ⊥
    no_text p k = ground arith

module _ (fl : Float64) where
  open fl use {F}

  of_estimate :
      (estimated t : Bytes) (o : Option F) (slippage : F) (decimals : ℕ)
      → min_output_of fl estimated o slippage decimals ≡ ok t
      → IsProtected t
  of_estimate estimated t none slippage decimals h = cc
  of_estimate estimated t (some est) slippage decimals h =
      read_ok fl (reduced fl est slippage decimals) t decimals _ refl h

  -- A minimum output that minOutputFor returns is read as a positive amount: whatever the estimate
  -- and the slippage, it refuses a figure that rounds to zero.
  pub min_output_for-IsProtected :
      (estimated t : Bytes) (slippage : F) (decimals : ℕ)
      → min_output_for fl estimated slippage decimals ≡ ok t
      → IsProtected t
  unfolding min_output_for
  min_output_for-IsProtected estimated t slippage decimals h =
      of_estimate estimated t (fl.parse estimated) slippage decimals h

module _ (cl : Client) {P : List Tx → Type 0} where
  open cl use {Node}

  Sends-price_of : (d : ℕ) (out : List Returned) → Sends P (price_of cl d out)
  unfolding price_of
  Sends-price_of d [] = search sends_rules
  Sends-price_of d (amounts (a ∷ some b ∷ more) ∷ rest) = search sends_rules
  Sends-price_of d (_ ∷ rest) = search sends_rules

  pub Sends-get_price :
      (chain : Config) (from_token to_token input : Bytes)
      → Sends P (get_price cl chain from_token to_token input)
  unfolding get_price
  Sends-get_price chain from_token to_token input = search (sends_rules, Sends-price_of) depth 7

  Sends-call_amounts_out :
      (chain_id router : ℕ) (amount_in : ℤ) (path : List ℕ)
      → Sends P (call_amounts_out cl chain_id router amount_in path)
  unfolding call_amounts_out
  Sends-call_amounts_out chain_id router amount_in path = search sends_rules

  Sends-try_route :
      (open_route : Bool) (raw : Option ℤ) (chain_id router : ℕ) (amount_in : ℤ) (path : List ℕ)
      → Sends P (try_route cl open_route raw chain_id router amount_in path)
  unfolding try_route
  Sends-try_route open_route (some raw) chain_id router amount_in path = search sends_rules
  Sends-try_route open_route none chain_id router amount_in path =
      search (sends_rules, Sends-call_amounts_out) depth 7

  Sends-find_amount :
      (chain : Config) (token : Bytes) (amount_in : ℤ)
      → Sends P (find_amount cl chain token amount_in)
  unfolding find_amount
  Sends-find_amount chain token amount_in = search (sends_rules, Sends-try_route) depth 7

module _ (fl : Float64) (cl : Client) {P : List Tx → Type 0} where
  open fl use {F}
  open cl use {Node}

  pub Sends-quote_get :
      (provider : Bytes → Bytes → Bytes → Io Node Bytes) (from_token to_token input : Bytes)
      → ((a b c : Bytes) → Sends P (provider a b c))
      → Sends P (quote_get fl provider from_token to_token input)
  unfolding quote_get
  Sends-quote_get provider from_token to_token input s = search sends_rules depth 7

  pub Sends-convert :
      (chain : Config) (token : TokenInfo) (usd : F)
      → Sends P (convert_usd_to_token_amount fl cl chain token usd)
  unfolding convert_usd_to_token_amount
  Sends-convert chain token usd = search (sends_rules, Sends-find_amount) depth 7

  Sends-check_needs_approval :
      (chain : Config) (token wallet : Bytes) (decimals : ℕ) (required : Bytes)
      → Sends P (check_needs_approval fl cl chain token wallet decimals required)
  unfolding check_needs_approval
  Sends-check_needs_approval chain token wallet decimals required = search sends_rules depth 7

  Sends-quote :
      (chain : Config) (from_token to_token : TokenInfo) (usd : Bytes) (slippage : F)
      (wallet : Bytes)
      → Sends P (quote fl cl chain from_token to_token usd slippage wallet)
  unfolding quote
  Sends-quote chain from_token to_token usd slippage wallet =
      search
        (sends_rules, Sends-convert, Sends-quote_get, Sends-get_price, Sends-check_needs_approval)
        depth 9

module _ (fl : Float64) (cl : Client) where
  open fl use {F}
  open cl use {Node}

  -- Quoting signs nothing: whatever the tokens, the amount and the answers of the node, and whether
  -- it returns a quote or an error, the list of transactions is as before.
  pub quote-sent :
      (chain : Config) (from_token to_token : TokenInfo) (usd : Bytes) (slippage : F)
      (wallet : Bytes) (w : World Node)
      → (quote fl cl chain from_token to_token usd slippage wallet w).1.sent ≡ w.sent
  quote-sent chain from_token to_token usd slippage wallet w =
      (Sends-quote fl cl {P = λ l. l ≡ w.sent} chain from_token to_token usd slippage wallet).at w
        refl

  Sends-execute_steps :
      (chain : Config) (key : Bytes) (e : Executor) (from_token to_token : TokenInfo) (usd : Bytes)
      (slippage : F)
      → new_executor cl chain key ≡ ok e
      → Sends
          (AllSent (IsAuthorised cl e))
          (execute_steps fl cl chain key from_token to_token usd slippage)
  unfolding execute_steps
  Sends-execute_steps chain key e from_token to_token usd slippage made =
      Sends-bind_lift _ _ (λ amount _. Sends-bind_lift _ _ (λ e' made'.
        Sends-bind _ _ (Sends-convert fl cl _ _ _) (λ conv.
          Sends-bind _ _ (Sends-quote_get fl cl _ _ _ _ (Sends-get_price cl chain)) (λ estimated.
            Sends-bind_lift _ _ (λ min_output found.
              subst
                (λ x. Sends (AllSent (IsAuthorised cl e)) (
                  execute_full_swap fl cl x from_token.address to_token.address conv.token_amount
                    min_output slippage))
                (same_executor (sym made ∙ made'))
                (Sends-execute_full_swap fl cl e from_token.address to_token.address
                  conv.token_amount min_output slippage
                  (min_output_for-IsProtected fl estimated min_output slippage to_token.decimals
                    found)))))))
    where
      same_executor : {a b : Executor} → ◌≡◌ {A = Result Error Executor} (ok a) (ok b) → a ≡ b
      same_executor h = cc

  -- Every transaction that Flow.Execute signs, on every path and whatever the node answers, is
  -- signed with the executor's key for its chain; it approves the chain's router, or calls the
  -- router for a swap that pays the executor's own address and accepts no output of zero.
  pub execute-IsAuthorised :
      (chain : Config) (key : Bytes) (e : Executor) (from_token to_token : TokenInfo) (usd : Bytes)
      (slippage : F) (w : World Node)
      → new_executor cl chain key ≡ ok e
      → AllSent (IsAuthorised cl e) w.sent
      → AllSent
          (IsAuthorised cl e)
          (execute fl cl chain key from_token to_token usd slippage w).1.sent
  unfolding execute
  execute-IsAuthorised chain key e from_token to_token usd slippage w made h =
      (Sends-execute_steps chain key e from_token to_token usd slippage made).at w h
