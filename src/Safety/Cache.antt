-- ===== src/Safety/Cache.antt =====
-- The cache never invents a verdict, and a failed check is never a pass.
use lazyswap.Prelude.{[], ◌∷◌}
use lazyswap.Prelude.Text.{Bytes}
use lazyswap.Prelude.Result.{Result}
use lazyswap.Safety.Report.{Report}
use lazyswap.Safety.Checker.{ReportCache}

-- Every entry of the cache is a report that `P` allows for its key.
abbrev pub AllCached : (Bytes → Report → Type 0) → ReportCache → Type 0
AllCached P [] = Unit
AllCached P ((k, c) ∷ cache) = P k c.report × AllCached P cache
