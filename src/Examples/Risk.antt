-- ===== src/Examples/Risk.antt =====
-- internal/safety at concrete inputs.
use lazyswap.Prelude.{
  ◌≡◌, refl, ◌≤◌, ◌<◌, ◌↔◌, inl, true, if◌then◌else◌, ltb, none, some, List, [], ◌∷◌,
}
use lazyswap.Prelude.Text.{Bytes, codes}
use lazyswap.Prelude.Result.{Result, ok}
use lazyswap.Safety.Report.{
  low, medium, high, Flag, Report, empty_report, total_weight, finalize, sort_flags,
}
use lazyswap.Safety.Token.{GoplusToken, set, goplus_flags, score_goplus}
use lazyswap.Safety.Score.{Reorder, same, finalize_levels}
use lazyswap.Safety.Goplus.{
  IsMapOrder, risk_weight, listed, score_goplus-risk_weight, score_goplus-critical,
}
use lazyswap.Examples.Samples.{whole_floats}

abbrev proxy_flag : Flag
proxy_flag = record { key = codes "proxy"; desc = []; severity = medium }

abbrev honeypot_flag : Flag
honeypot_flag = record { key = codes "honeypot"; desc = []; severity = high }

abbrev two_flags : List Flag
two_flags = proxy_flag ∷ honeypot_flag ∷ []

sort_flags_test : sort_flags two_flags ≡ honeypot_flag ∷ proxy_flag ∷ []
unfolding sort_flags
sort_flags_test = refl

abbrev two_flag_report : Report
two_flag_report = record empty_report { flags = two_flags }

finalize_levels_example :
    ((finalize two_flag_report).score ≤ 100)
    × (((finalize two_flag_report).level ≡ high) ↔ (40 ≤ total_weight two_flag_report.flags))
    × (((finalize two_flag_report).level ≡ low) ↔ (total_weight two_flag_report.flags < 15))
finalize_levels_example = finalize_levels two_flag_report

abbrev honeypot : GoplusToken
honeypot = record {
  is_honeypot = some (codes "1");
  cannot_sell_all = none;
  buy_tax = some (codes "0");
  sell_tax = some (codes "1");
  is_mintable = some (codes "1");
  is_open_source = none;
  owner_change_balance = none;
  hidden_owner = some (codes "1");
  self_destruct = none;
  can_take_back_ownership = none;
  transfer_pausable = none;
  is_blacklisted = none;
  trading_cooldown = none;
  is_proxy = some (codes "1");
}

listed-IsMapOrder : IsMapOrder listed
listed-IsMapOrder = record { visits = λ entries. same }

score_goplus-risk_weight_example :
    ((score_goplus whole_floats listed listed honeypot).score ≡ (
      if ltb 100 (risk_weight whole_floats honeypot)
      then 100
      else risk_weight whole_floats honeypot))
    × (((score_goplus whole_floats listed listed honeypot).level ≡ high)
        ↔ (40 ≤ risk_weight whole_floats honeypot))
    × (((score_goplus whole_floats listed listed honeypot).level ≡ low)
        ↔ (risk_weight whole_floats honeypot < 15))
    × Reorder
        (score_goplus whole_floats listed listed honeypot).flags
        (goplus_flags whole_floats listed listed honeypot)
score_goplus-risk_weight_example =
    score_goplus-risk_weight whole_floats listed listed honeypot listed-IsMapOrder listed-IsMapOrder

honeypot_set : set honeypot.is_honeypot ≡ true
unfolding set
honeypot_set = refl

score_goplus-critical_example : (score_goplus whole_floats listed listed honeypot).level ≡ high
score_goplus-critical_example =
    score_goplus-critical whole_floats listed listed honeypot listed-IsMapOrder listed-IsMapOrder
      (inl honeypot_set)

abbrev one_report : Bytes → Bytes → Result Bytes Report
one_report chain_key token = ok two_flag_report

abbrev HasFlags : Bytes → Report → Type 0
HasFlags key r = r.flags ≡ two_flags
