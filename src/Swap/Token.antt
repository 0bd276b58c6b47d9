-- ===== src/Swap/Token.antt =====
-- internal/swap/resolve.go, and the token helpers of executor.go and flow.go.
use lazyswap.Prelude.{
  ltb, ◌==◌, ◌++◌, map, Bool, true, false, ℕ, List, [], ◌∷◌, Option, none, some, if◌then◌else◌,
}
use lazyswap.Prelude.Text.{Bytes, codes, text_eq, to_upper, to_lower}
use lazyswap.Prelude.Result.{Result, ok, err}
use lazyswap.Error.{Error, unknown_token}
use lazyswap.Chain
use lazyswap.Chain.{Config, lookup}

pub record TokenInfo : Type 0 where
  pub symbol : Bytes
  pub address : Bytes
  pub decimals : ℕ

-- NativeSentinel
abbrev pub native_sentinel : Bytes
native_sentinel = codes "native"

abbrev of_chain : Chain.TokenInfo → TokenInfo
of_chain t = record { symbol = t.symbol; address = t.address; decimals = t.decimals }

abbrev pub native_token : Config → TokenInfo
native_token c = record {
  symbol = c.native_symbol;
  address = native_sentinel;
  decimals = c.native_decimals;
}

abbrev or_unknown : Bytes → Bytes → Option Chain.TokenInfo → Result Error TokenInfo
or_unknown symbol name none = err (unknown_token symbol name)
or_unknown symbol name (some t) = ok (of_chain t)

-- ResolveToken
unfoldable pub resolve_token : Config → Bytes → Result Error TokenInfo
resolve_token c symbol =
    let up = to_upper symbol in
    if text_eq up (to_upper c.native_symbol)
    then ok (native_token c)
    else or_unknown symbol c.name (lookup up c.tokens)

-- `a <= b` on strings, byte by byte
unfoldable pub text_le : Bytes → Bytes → Bool
text_le [] t = true
text_le (a ∷ s) [] = false
text_le (a ∷ s) (b ∷ t) = if a == b then text_le s t else ltb a b

unfoldable pub insert_text : Bytes → List Bytes → List Bytes
unfolding text_le
insert_text x [] = x ∷ []
insert_text x (y ∷ ys) = let rest = insert_text x ys in if text_le x y then x ∷ y ∷ ys else y ∷ rest

-- sort.Strings
unfoldable pub sort_texts : List Bytes → List Bytes
unfolding insert_text
sort_texts [] = []
sort_texts (x ∷ xs) = insert_text x (sort_texts xs)

-- strings.Join(ss, ", ")
unfoldable pub join_texts : List Bytes → Bytes
join_texts [] = []
join_texts (s ∷ []) = s
join_texts (s ∷ t ∷ ss) = s ++ b',' ∷ b' ' ∷ join_texts (t ∷ ss)

-- AvailableSymbols
unfoldable pub available_symbols : Config → Bytes
unfolding sort_texts join_texts
available_symbols c = join_texts (sort_texts (c.native_symbol ∷ map (λ e. e.0) c.tokens))

-- the first entry whose address is `lower`, by the loop of resolveDecimals
decimals_of : Bytes → List (Bytes × Chain.TokenInfo) → ℕ
decimals_of lower [] = 18
decimals_of lower ((k, t) ∷ rest) =
    if text_eq (to_lower t.address) lower then t.decimals else decimals_of lower rest

-- resolveDecimals
unfoldable pub resolve_decimals : Config → Bytes → ℕ
unfolding decimals_of
resolve_decimals c addr = decimals_of (to_lower addr) c.tokens

-- Flow.ResolveAddress
unfoldable pub resolve_address : Config → Bytes → Bytes
resolve_address c addr = if text_eq addr native_sentinel then c.wrapped_native else addr

-- Flow.stablecoinDecimals
unfoldable pub stablecoin_decimals : Config → ℕ
unfolding decimals_of
stablecoin_decimals c = decimals_of (to_lower c.stablecoin_addr) c.tokens
