-- ===== src/Thorchain/Memo.antt =====
-- A quote for a destination carries a memo, without which a deposit would be lost.
use lazyswap.Prelude.{
  Bool-cases, Option, arith, false, inl, inr, none, null, refl, some, subst, ◌≡◌,
}
use lazyswap.Prelude.Int.{ℤ}
use lazyswap.Prelude.Result.{Result, err, ok}
use lazyswap.Prelude.Text.{Bytes}
use lazyswap.Error.{Error, decode_quote}
use lazyswap.Float.{Float64}
use lazyswap.Swap.Io.{World, lift, observe, pure, relabel, ◌>>=◌}
use lazyswap.Thorchain.{Http, QuoteResponse, SwapQuote}
use lazyswap.Thorchain.Numbers.{big_of}
use lazyswap.Thorchain.Provider.{
  check_quote, decoded_quote, expected_quote, get, get_swap_quote, memo_of, min_sats, quote_from,
  quote_of_body,
}

module _ (fl : Float64) where
  memo_of-given :
      (given btc : Bytes) (least : ℤ) → null btc ≡ false → null (memo_of fl given btc least) ≡ false
  unfolding memo_of
  memo_of-given given btc least h = elim (Bool-cases (null given)) [
    | inl e ↦ rw (e, h) refl
    | inr e ↦ rw e e
  ]

  checked :
      (btc : Bytes) (r : QuoteResponse) (q : SwapQuote)
      → null btc ≡ false
      → check_quote fl btc r ≡ ok q
      → null q.memo ≡ false
  unfolding check_quote quote_from
  checked btc r q given h = expected (big_of r.expected_amount_out) (ground arith)
    where
      expected : (n : Option ℤ) → expected_quote fl r btc n ≡ ok q → null q.memo ≡ false
      expected none k = cc
      expected (some n) k =
          let same : quote_from fl r btc n ≡ q = cc in
          subst (λ x. null x.memo ≡ false) same
            (memo_of-given r.memo btc (min_sats fl (fl.of_ℤ n)) given)

  decoded :
      (btc : Bytes) (d : Result Error QuoteResponse) (q : SwapQuote)
      → null btc ≡ false
      → decoded_quote fl btc d ≡ ok q
      → null q.memo ≡ false
  decoded btc (err e) q given h = cc
  decoded btc (ok r) q given h = checked btc r q given h

  of_body :
      (unmarshal : Bytes → Result Bytes QuoteResponse) (btc : Bytes) (x : Result Bytes Bytes)
      (q : SwapQuote)
      → null btc ≡ false
      → quote_of_body fl unmarshal btc x ≡ ok q
      → null q.memo ≡ false
  unfolding quote_of_body
  of_body unmarshal btc (err e) q given h = cc
  of_body unmarshal btc (ok body) q given h =
      decoded btc (relabel decode_quote (unmarshal body)) q given h

  -- Every quote that GetSwapQuote returns for a Bitcoin address has a memo, also where THORnode
  -- gave none.
  pub get_swap_quote-memo :
      {Node : Type 0} (http : Http Node) (asset amount btc : Bytes) (w : World Node) (q : SwapQuote)
      → null btc ≡ false
      → (get_swap_quote fl http asset amount btc w).0 ≡ ok q
      → null q.memo ≡ false
  unfolding get_swap_quote get observe pure lift ◌>>=◌
  get_swap_quote-memo http asset amount btc w q given h =
      of_body http.unmarshal_quote btc _ q given h
