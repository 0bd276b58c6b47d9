-- ===== src/Safety/Checker.antt =====
-- internal/safety/checker.go: which tokens are assessed, and the cache in front of a checker.
use lazyswap.Safety.Report.{Report, empty_report}
use lazyswap.Prelude.{
  ℕ, ◌-◌, ◌*◌, ◌^◌, Bool, true, false, not, Option, none, some, List, ◌∷◌, ◌++◌, ltb, if◌then◌else◌,
  null,
}
use lazyswap.Prelude.Text.{Bytes, codes, text_eq, to_upper, to_lower, equal_fold}
use lazyswap.Prelude.Result.{Result, ok, err}
use lazyswap.Chain.{Config, lookup}
use lazyswap.Swap.Token.{TokenInfo, native_sentinel}

-- the symbols of the stablecoins that are not assessed
abbrev pub is_stable : Bytes → Bool
is_stable s =
    if text_eq s (codes "USDT")
    then true
    else if text_eq s (codes "USDC")
    then true
    else if text_eq s (codes "DAI")
    then true
    else text_eq s (codes "BUSD")

-- ShouldCheck
unfoldable pub should_check : Config → TokenInfo → Bool
should_check c tok =
    if text_eq tok.address native_sentinel
    then false
    else if null tok.address
    then false
    else if is_stable (to_upper tok.symbol)
    then false
    else not (equal_fold tok.address c.stablecoin_addr)

pub record Cached : Type 0 where
  pub report : Report
  pub at : ℕ

-- The cache of safety.Service: the newest entry of a key stands first, and is the one that is read.
abbrev pub ReportCache : Type 0
ReportCache = List (Bytes × Cached)

-- cacheTTL, in nanoseconds
abbrev pub cache_ttl : ℕ
cache_ttl = 300 * 10 ^ 9

abbrev pub failed_report : Report
failed_report = record empty_report { unknown = true; reason = codes "risk check failed" }

abbrev pub cache_key : Bytes → Bytes → Bytes
cache_key chain_key token_addr = chain_key ++ b':' ∷ to_lower token_addr

abbrev pub young : (now : ℕ) → Option Cached → Option Report
young now none = none
young now (some c) = if ltb (now - c.at) cache_ttl then some c.report else none

-- the entry of a key, where it is there and younger than the limit
unfoldable pub fresh : ReportCache → Bytes → (now : ℕ) → Option Report
fresh cache key now = young now (lookup key cache)

-- what a check of the checker leaves behind at time `later`
abbrev pub remember : ReportCache → Bytes → (later : ℕ) → Result Bytes Report → Report × ReportCache
remember cache key later (err e) = (failed_report, cache)
remember cache key later (ok r) = (r, (key, record { report = r; at = later }) ∷ cache)

-- a fresh entry is returned as it is; only without one does the outcome of the checker count
abbrev pub answer :
    Option Report → ReportCache → Bytes → (later : ℕ) → Result Bytes Report → Report × ReportCache
answer (some r) cache key later outcome = (r, cache)
answer none cache key later outcome = remember cache key later outcome

-- Service.Check: `now` is the time of the look at the cache, `later` that of the write
unfoldable pub check :
    (checker : Bytes → Bytes → Result Bytes Report) (now later : ℕ)
    → ReportCache
    → (chain_key token_addr : Bytes) → Report × ReportCache
check checker now later cache chain_key token_addr =
    let key = cache_key chain_key token_addr in
    answer (fresh cache key now) cache key later (checker chain_key token_addr)
