-- ===== src/Swap/Thorchain/Deposited.antt =====
-- What ExecuteThorchain signs, from the answers of THORnode on; what its quotes sign.
use lazyswap.Prelude.{List, [], inl, inr, refl, ◌≡◌, ◌⊎◌}
use lazyswap.Prelude.Result.{Result, err, ok}
use lazyswap.Prelude.Text.{Bytes}
use lazyswap.Chain.{Config}
use lazyswap.Error.{Error}
use lazyswap.Float.{Float64}
use lazyswap.Swap.Executor.{Executor, new_executor}
use lazyswap.Swap.Flow.{UsdConversion, convert_usd_to_token_amount, parse_positive}
use lazyswap.Swap.Flow.Safe.{Sends-convert}
use lazyswap.Swap.Io.{Client, Io, Tx, World, attempt, lift, ◌>>=◌}
use lazyswap.Swap.Io.Count.{IsSilent}
use lazyswap.Swap.Io.Leads.{Answered, Leads, Leads-bind, Leads-Sends}
use lazyswap.Swap.Io.Sends.{
  AllSent, Sends, Sends-attempt, Sends-bind, Sends-lift, Sends-pure, sends_rules,
}
use lazyswap.Swap.Thorchain.{
  check_btc_address, estimate_thorchain, execute_thorchain, explain, get_thorchain_quote,
  thor_asset_string, thorchain_steps,
}
use lazyswap.Swap.Thorchain.Safe.{IsDeposit, Sends-send_thor_swap}
use lazyswap.Swap.Token.{TokenInfo}
use lazyswap.Thorchain.{Http, InboundAddress, SwapQuote}
use lazyswap.Thorchain.Provider.{get, get_inbound_address, get_swap_quote, to_thor_base_units}

module _ (fl : Float64) {Node : Type 0} (http : Http Node) where
  get-IsSilent : (endpoint : Bytes) → IsSilent (get http endpoint)
  unfolding get
  get-IsSilent endpoint P = search sends_rules

  pub get_swap_quote-IsSilent :
      (from_asset from_amount btc_address : Bytes)
      → IsSilent (get_swap_quote fl http from_asset from_amount btc_address)
  unfolding get_swap_quote
  get_swap_quote-IsSilent from_asset from_amount btc_address P =
      Sends-bind _ _ (get-IsSilent _ P) (λ body. Sends-lift _)

  pub get_inbound_address-IsSilent :
      (chain_key : Bytes) → IsSilent (get_inbound_address http chain_key)
  unfolding get_inbound_address
  get_inbound_address-IsSilent chain_key P =
      Sends-bind _ _ (Sends-lift _)
        (λ thor. Sends-bind _ _ (get-IsSilent _ P) (λ body. Sends-lift _))

module _ (fl : Float64) (cl : Client) (http : Http cl.Node) where
  open fl use {F}
  open cl use {Node}

  -- The list of transactions is empty, or it was signed by the executor of the key for deposits
  -- of the amount that the dollars were converted to, into a vault that THORnode named for the chain,
  -- under the memo of a quote that it gave for that amount and the Bitcoin address.
  abbrev pub Deposited :
      (chain_key : Bytes)
      → Config
      → (key : Bytes) → TokenInfo
      → (usd btc : Bytes) → List Tx
      → Type 0
  Deposited chain_key chain key token usd btc sent =
      (sent ≡ [])
      ⊎ ((e : Executor) × (inbound : InboundAddress) × (quote : SwapQuote) × (amount : Bytes)
          × (new_executor cl chain key ≡ ok e)
          × Answered (get_inbound_address http chain_key) inbound
          × ((v : F) × (conv : UsdConversion F) × (parse_positive fl usd ≡ ok v)
              × Answered (convert_usd_to_token_amount fl cl chain token v) conv
              × (amount ≡ conv.token_amount))
          × ((asset : Bytes) × (raw : Bytes) × Answered (get_swap_quote fl http asset raw btc) quote
              × (thor_asset_string chain_key token ≡ ok asset)
              × (to_thor_base_units fl amount ≡ ok raw))
          × AllSent (IsDeposit cl chain inbound token e amount quote.memo) sent)

  quoted :
      (from_asset raw btc symbol : Bytes) (price : F) (r : Result Error SwapQuote) (q : SwapQuote)
      → Answered (attempt (get_swap_quote fl http from_asset raw btc)) r
      → Answered (lift {Node = Node} (explain fl symbol price r)) q
      → Answered (get_swap_quote fl http from_asset raw btc) q
  unfolding attempt lift
  quoted from_asset raw btc symbol price (ok p) q (w, asked) (v, same) = (w, cc)
  quoted from_asset raw btc symbol price (err x) q (w, asked) (v, same) = cc

  Leads-thorchain_steps :
      (chain_key : Bytes) (chain : Config) (key : Bytes) (token : TokenInfo) (usd btc : Bytes)
      → Leads
          (Deposited chain_key chain key token usd btc)
          (thorchain_steps fl cl http chain_key chain key token usd btc)
  unfolding thorchain_steps lift
  Leads-thorchain_steps chain_key chain key token usd btc =
      after (lift (parse_positive fl usd)) _ (λ P. Sends-lift _)
        (λ v positive.
          after (lift (check_btc_address btc)) _ (λ P. Sends-lift _)
            (λ _ _.
              after (lift (new_executor cl chain key)) _ (λ P. Sends-lift _)
                (λ e made.
                  after _ _ (λ P. Sends-convert fl cl _ _ _)
                    (λ conv priced.
                      after (lift (thor_asset_string chain_key token)) _ (λ P. Sends-lift _)
                        (λ asset named.
                          after (lift (to_thor_base_units fl conv.token_amount)) _
                            (λ P. Sends-lift _)
                            (λ raw scaled.
                              after _ _
                                (λ P.
                                  Sends-attempt _ (get_swap_quote-IsSilent fl http asset raw btc P))
                                (λ r asked.
                                  after _ _ (λ P. Sends-lift _)
                                    (λ quote shown.
                                      after _ _ (get_inbound_address-IsSilent fl http chain_key)
                                        (λ inbound vault.
                                          Leads-Sends _
                                            (Sends-bind _ _
                                              (Sends-send_thor_swap fl cl chain e inbound token
                                                conv.token_amount quote.memo)
                                              (λ res. Sends-pure _))
                                            (λ l all. inr (
                                              e,
                                              inbound,
                                              quote,
                                              conv.token_amount,
                                              made.1,
                                              vault,
                                              (v, conv, positive.1, priced, refl),
                                              (
                                                asset,
                                                raw,
                                                quoted asset raw btc token.symbol
                                                    conv.price_per_token r quote asked shown,
                                                named.1,
                                                scaled.1,
                                              ),
                                              all,
                                            )))))))))))
    where
      after :
          {A B : Type 0} (m : Io Node A) (f : A → Io Node B)
          → IsSilent m
          → ((a : A) → Answered m a → Leads (Deposited chain_key chain key token usd btc) (f a))
          → Leads (Deposited chain_key chain key token usd btc) (m >>= f)
      after = Leads-bind (inl refl)

  -- Whatever the nodes answer, ExecuteThorchain signs nothing, or only transactions of the key's
  -- executor that deposit the converted amount into the vault that THORnode named for the chain,
  -- under the memo of the quote it gave for that amount and Bitcoin address, and approvals of the
  -- deposit's router for the same amount. The vault and the memo are not blank.
  pub execute_thorchain-Deposited :
      (chain_key : Bytes) (chain : Config) (key : Bytes) (token : TokenInfo) (usd btc : Bytes)
      (w : World Node)
      → w.sent ≡ []
      → Deposited chain_key chain key token usd btc
          (execute_thorchain fl cl http chain_key chain key token usd btc w).1.sent
  unfolding execute_thorchain
  execute_thorchain-Deposited chain_key chain key token usd btc w fresh =
      (Leads-thorchain_steps chain_key chain key token usd btc).at w fresh

  Sends-get_thorchain_quote :
      {P : List Tx → Type 0} (chain_key : Bytes) (chain : Config) (token : TokenInfo)
      (usd btc : Bytes)
      → Sends P (get_thorchain_quote fl cl http chain_key chain token usd btc)
  unfolding get_thorchain_quote
  Sends-get_thorchain_quote {P} chain_key chain token usd btc =
      Sends-bind _ _ (Sends-lift _) (λ amount. Sends-bind _ _ (Sends-lift _) (λ _.
        Sends-bind _ _ (Sends-convert fl cl _ _ _) (λ conv. Sends-bind _ _ (Sends-lift _) (λ asset.
          Sends-bind _ _ (Sends-lift _) (λ raw.
            Sends-bind _ _ (Sends-attempt _ (get_swap_quote-IsSilent fl http asset raw btc P))
              (λ r. search sends_rules))))))

  Sends-estimate_thorchain :
      {P : List Tx → Type 0} (chain_key : Bytes) (chain : Config) (token : TokenInfo) (usd : Bytes)
      → Sends P (estimate_thorchain fl cl http chain_key chain token usd)
  unfolding estimate_thorchain
  Sends-estimate_thorchain {P} chain_key chain token usd = Sends-bind _ _ (Sends-lift _) (λ amount.
      Sends-bind _ _ (Sends-convert fl cl _ _ _) (λ conv. Sends-bind _ _ (Sends-lift _) (λ asset.
        Sends-bind _ _ (Sends-lift _) (λ raw.
          Sends-bind _ _ (Sends-attempt _ (get_swap_quote-IsSilent fl http asset raw [] P))
            (λ r. Sends-lift _)))))

  -- GetThorchainQuote and EstimateThorchain sign nothing, on any path.
  pub thorchain_quotes-sent :
      (chain_key : Bytes) (chain : Config) (token : TokenInfo) (usd btc : Bytes) (w : World Node)
      → ((get_thorchain_quote fl cl http chain_key chain token usd btc w).1.sent ≡ w.sent)
        × ((estimate_thorchain fl cl http chain_key chain token usd w).1.sent ≡ w.sent)
  thorchain_quotes-sent chain_key chain token usd btc w = (
    (Sends-get_thorchain_quote {P = λ l. l ≡ w.sent} chain_key chain token usd btc).at w refl,
    (Sends-estimate_thorchain {P = λ l. l ≡ w.sent} chain_key chain token usd).at w refl,
  )
