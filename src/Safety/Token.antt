-- ===== src/Safety/Token.antt =====
-- internal/safety/goplus.go: the scoring of GoPlus data. The HTTP request and its JSON are a
-- parameter, and so is the order in which Go visits a map.
use lazyswap.Safety.Report.{
  Level, low, Flag, Report, empty_report, finalize, sort_flags, medium, high,
}
use lazyswap.Prelude.{
  ℕ, Bool, true, false, Option, none, some, List, [], ◌∷◌, ◌++◌, leb, ◌==◌, if◌then◌else◌, null,
}
use lazyswap.Prelude.Int.{ℤ, pos, negsuc}
use lazyswap.Prelude.Text.{Bytes, codes, text_eq, to_lower}
use lazyswap.Prelude.Result.{Result, ok, err}
use lazyswap.Float.{Float64}
use lazyswap.Chain.{Config, lookup}

pub record GoplusToken : Type 0 where
  pub is_honeypot : Option Bytes
  pub cannot_sell_all : Option Bytes
  pub buy_tax : Option Bytes
  pub sell_tax : Option Bytes
  pub is_mintable : Option Bytes
  pub is_open_source : Option Bytes
  pub owner_change_balance : Option Bytes
  pub hidden_owner : Option Bytes
  pub self_destruct : Option Bytes
  pub can_take_back_ownership : Option Bytes
  pub transfer_pausable : Option Bytes
  pub is_blacklisted : Option Bytes
  pub trading_cooldown : Option Bytes
  pub is_proxy : Option Bytes

-- set
unfoldable pub set : Option Bytes → Bool
unfolding text_eq
set none = false
set (some s) = text_eq s (codes "1")

abbrev flag : Bytes → Bytes → Level → Flag
flag key desc severity = record { key = key; desc = desc; severity = severity }

-- An entry of the maps `high` and `medium`: the field, and the flag that it sets.
abbrev pub Entry : Type 0
Entry = Option Bytes × Flag

-- the loop over a map, in the order of its entries
unfoldable pub set_flags : List Entry → List Flag
unfolding set
set_flags [] = []
set_flags ((p, f) ∷ entries) = if set p then f ∷ set_flags entries else set_flags entries

abbrev pub high_entries : GoplusToken → List Entry
high_entries t =
    (
      t.owner_change_balance,
      flag (codes "owner_change_balance") (codes "owner can edit holder balances") high,
    )
    ∷ (t.hidden_owner, flag (codes "hidden_owner") (codes "hidden owner") high)
    ∷ (t.self_destruct, flag (codes "selfdestruct") (codes "contract can self-destruct") high)
    ∷ []

abbrev pub medium_entries : GoplusToken → List Entry
medium_entries t =
    (t.is_mintable, flag (codes "mintable") (codes "owner can mint new supply") medium)
    ∷ (
      t.can_take_back_ownership,
      flag (codes "take_back_ownership") (codes "ownership can be reclaimed") medium,
    )
    ∷ (
      t.transfer_pausable,
      flag (codes "transfer_pausable") (codes "transfers can be paused") medium,
    )
    ∷ (t.is_blacklisted, flag (codes "blacklist") (codes "has a blacklist function") medium)
    ∷ (
      t.trading_cooldown,
      flag (codes "trading_cooldown") (codes "trading cooldown mechanism") medium,
    )
    ∷ (t.is_proxy, flag (codes "proxy") (codes "proxy contract — logic can change") medium)
    ∷ []

-- k <= v
abbrev pub at_least : ℕ → ℤ → Bool
at_least k (pos n) = leb k n
at_least k (negsuc n) = false

abbrev natural : ℤ → ℕ
natural (pos n) = n
natural (negsuc n) = 0

-- The order in which Go iterates over a map: any order of the entries.
pub record MapOrder : Type 0 where
  pub visit : List Entry → List Entry

module _ (fl : Float64) where
  open fl use {F, of_ℕ, mul, div, to_int, parse, format_fixed}

  -- taxBps
  unfoldable pub tax_bps : Option Bytes → ℤ
  tax_bps none = negsuc 0
  tax_bps (some s) =
      if null s
      then negsuc 0
      else elim (parse s) [ none ↦ negsuc 0 | some f ↦ to_int (mul f (of_ℕ 10000)) ]

  abbrev tax_flag : Bytes → Bytes → ℤ → Level → Flag
  tax_flag key name bps severity =
      flag key (name ++ format_fixed (div (of_ℕ (natural bps)) (of_ℕ 100)) 1 ++ codes "%") severity

  abbrev pub sell_tax_flags : ℤ → List Flag
  sell_tax_flags bps =
      if at_least 1000 bps
      then tax_flag (codes "sell_tax") (codes "sell tax ") bps high ∷ []
      else if at_least 500 bps
      then tax_flag (codes "sell_tax") (codes "sell tax ") bps medium ∷ []
      else []

  abbrev pub buy_tax_flags : ℤ → List Flag
  buy_tax_flags bps =
      if at_least 500 bps then tax_flag (codes "buy_tax") (codes "buy tax ") bps medium ∷ [] else []

  abbrev pub is_closed : Option Bytes → Bool
  is_closed none = false
  is_closed (some s) = text_eq s (codes "0")

  abbrev pub when : Bool → Flag → List Flag
  when true f = f ∷ []
  when false f = []

  -- the flags of scoreGoplus in front of those of the two maps
  unfoldable pub first_flags : GoplusToken → List Flag
  first_flags t =
      when (set t.is_honeypot) (flag (codes "honeypot") (codes "honeypot: selling is blocked") high)
      ++ when (set t.cannot_sell_all)
          (flag (codes "cannot_sell_all") (codes "cannot sell the full balance") high)
      ++ sell_tax_flags (tax_bps t.sell_tax)
      ++ buy_tax_flags (tax_bps t.buy_tax)

  -- the flag behind them
  unfoldable pub last_flags : GoplusToken → List Flag
  last_flags t =
      when (is_closed t.is_open_source)
        (flag (codes "closed_source") (codes "contract source not verified") medium)

  -- the flags of scoreGoplus, in the order in which they are appended
  unfoldable pub goplus_flags : (high_order medium_order : MapOrder) → GoplusToken → List Flag
  goplus_flags high_order medium_order t =
      first_flags t
      ++ (set_flags (high_order.visit (high_entries t))
          ++ (set_flags (medium_order.visit (medium_entries t)) ++ last_flags t))

  abbrev is_missing : Option Bytes → Bool
  is_missing none = true
  is_missing (some s) = false

  -- scoreGoplus
  unfoldable pub score_goplus : (high_order medium_order : MapOrder) → GoplusToken → Report
  score_goplus high_order medium_order t = finalize (record {
    score = 0;
    level = low;
    level_name = [];
    honeypot = set t.is_honeypot;
    buy_tax_bps = tax_bps t.buy_tax;
    sell_tax_bps = tax_bps t.sell_tax;
    flags = sort_flags (goplus_flags high_order medium_order t);
    source = codes "goplus";
    unknown = is_missing t.is_honeypot;
    reason =
        if is_missing t.is_honeypot then codes "GoPlus could not determine honeypot status" else [];
  })

  -- goplusChains
  abbrev pub goplus_covers : ℕ → Bool
  goplus_covers chain_id = if chain_id == 1 then true else chain_id == 56

  abbrev pub no_data : Bytes → Report
  no_data reason = record empty_report { unknown = true; reason = reason }

  abbrev scored :
      (high_order medium_order : MapOrder)
      → Bytes
      → Result Bytes (List (Bytes × GoplusToken))
      → Result Bytes Report
  scored high_order medium_order addr (err e) = err e
  scored high_order medium_order addr (ok result) = elim (lookup (to_lower addr) result) [
    | none ↦ ok (no_data (codes "GoPlus has no data for this token"))
    | some t ↦ ok (score_goplus high_order medium_order t)
  ]

  -- GoPlus.Check; `fetch` is the request with the decoding of its answer
  unfoldable pub goplus_check :
      (high_order medium_order : MapOrder)
      (fetch : ℕ → Bytes → Result Bytes (List (Bytes × GoplusToken)))
      → Config
      → Bytes
      → Result Bytes Report
  goplus_check high_order medium_order fetch c token_addr =
      if goplus_covers c.chain_id
      then scored high_order medium_order token_addr (fetch c.chain_id token_addr)
      else ok (no_data (codes "GoPlus does not cover " ++ c.name))
