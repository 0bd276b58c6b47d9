-- ===== src/Safety/Report.antt =====
-- internal/safety/report.go: severities, flags and the finished report.
use lazyswap.Prelude.{ℕ, ◌+◌, Bool, false, List, [], ◌∷◌, ltb, leb, if◌then◌else◌}
use lazyswap.Prelude.Int.{ℤ, pos}
use lazyswap.Prelude.Text.{Bytes, codes}

pub data Level : Type 0 where
  low medium high : Level

-- the number of a level, which Go compares
abbrev pub rank : Level → ℕ
rank low = 0
rank medium = 1
rank high = 2

-- Level.String
unfoldable pub level_string : Level → Bytes
level_string high = codes "HIGH"
level_string medium = codes "MEDIUM"
level_string low = codes "LOW"

pub record Flag : Type 0 where
  pub key : Bytes
  pub desc : Bytes
  pub severity : Level

pub record Report : Type 0 where
  pub score : ℕ
  pub level : Level
  pub level_name : Bytes
  pub honeypot : Bool
  pub buy_tax_bps : ℤ
  pub sell_tax_bps : ℤ
  pub flags : List Flag
  pub source : Bytes
  pub unknown : Bool
  pub reason : Bytes

-- Report{}
abbrev pub empty_report : Report
empty_report = record {
  score = 0;
  level = low;
  level_name = [];
  honeypot = false;
  buy_tax_bps = pos 0;
  sell_tax_bps = pos 0;
  flags = [];
  source = [];
  unknown = false;
  reason = [];
}

-- weightHigh, weightMedium, weightLow
abbrev pub weight : Level → ℕ
weight high = 40
weight medium = 15
weight low = 5

unfoldable pub total_weight : List Flag → ℕ
total_weight [] = 0
total_weight (f ∷ fs) = weight f.severity + total_weight fs

unfoldable pub level_of : ℕ → Level
level_of score = if leb 40 score then high else if leb 15 score then medium else low

-- Report.finalize
unfoldable pub finalize : Report → Report
unfolding total_weight level_of level_string
finalize r =
    let total = total_weight r.flags in
    let score = if ltb 100 total then 100 else total in
    record r { score = score; level = level_of score; level_name = level_string (level_of score) }

unfoldable pub insert_flag : Flag → List Flag → List Flag
insert_flag f [] = f ∷ []
insert_flag f (g ∷ gs) =
    let rest = insert_flag f gs in
    if ltb (rank f.severity) (rank g.severity) then g ∷ rest else f ∷ g ∷ gs

-- sortFlags: a stable sort, the most severe first
unfoldable pub sort_flags : List Flag → List Flag
unfolding insert_flag
sort_flags [] = []
sort_flags (f ∷ fs) = insert_flag f (sort_flags fs)
