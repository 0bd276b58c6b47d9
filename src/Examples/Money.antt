-- ===== src/Examples/Money.antt =====
-- internal/balance and internal/chain at concrete inputs.
use lazyswap.Prelude.{arith, ◌≡◌, refl, ◌↔◌, some}
use lazyswap.Prelude.Int.{pos, negsuc, IsPos}
use lazyswap.Prelude.Text.{codes, trim_space}
use lazyswap.Prelude.Result.{ok, err}
use lazyswap.Balance.{
  format_units, too_many_digits, parse_units, parse_parts, split_dot, insert_commas, remove_byte,
}
use lazyswap.Balance.Grammar.{IsUnits, parse_units_iff}
use lazyswap.Balance.RoundTrip.{parse_units-format_units}
use lazyswap.Balance.Scale.{parse_units-IsPos}
use lazyswap.Balance.Commas.{IsGrouped, insert_commas-IsGrouped}

format_units_test :
    (format_units (some (pos 1500000000000000000)) 18 ≡ codes "1.5")
    × (format_units (some (pos 42)) 6 ≡ codes "0.000042")
    × (format_units (some (pos 7000000)) 6 ≡ codes "7")
unfolding format_units
format_units_test = (refl, refl, refl)

parse_units_test :
    (parse_units (codes " 1.5 ") 18 ≡ ok (pos 1500000000000000000))
    × (parse_units (codes "-.25") 2 ≡ ok (negsuc 24))
    × (parse_units (codes "1.234") 2 ≡ err too_many_digits)
unfolding parse_units parse_parts split_dot trim_space
parse_units_test = (refl, refl, refl)

insert_commas_test :
    (insert_commas (codes "1234567") ≡ codes "1,234,567")
    × (insert_commas (codes "123456") ≡ codes "123,456")
unfolding insert_commas
insert_commas_test = (refl, refl)

parse_units_iff_example :
    (parse_units (codes "-1.25") 6 ≡ ok (negsuc 1249999))
    ↔ IsUnits (codes "-1.25") 6 (negsuc 1249999)
parse_units_iff_example = parse_units_iff (codes "-1.25") 6 (negsuc 1249999)

parse_units-format_units_example : parse_units (format_units (some (pos 1050)) 3) 3 ≡ ok (pos 1050)
parse_units-format_units_example = parse_units-format_units 1050 3

read_at :
    (parse_units (codes "0.5") 6 ≡ ok (pos 500000)) × (parse_units (codes "0.5") 2 ≡ ok (pos 50))
unfolding parse_units parse_parts split_dot trim_space
read_at = (refl, refl)

parse_units-IsPos_example : IsPos (pos 50)
parse_units-IsPos_example =
    parse_units-IsPos (codes "0.5") 6 2 (pos 500000) (pos 50) read_at.0 read_at.1 (omega arith)

insert_commas-IsGrouped_example :
    IsGrouped (insert_commas (codes "1234567"))
    × (remove_byte b',' (insert_commas (codes "1234567")) ≡ codes "1234567")
insert_commas-IsGrouped_example = insert_commas-IsGrouped (codes "1234567") refl
