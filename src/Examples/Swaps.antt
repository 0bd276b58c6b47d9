-- ===== src/Examples/Swaps.antt =====
-- internal/swap at concrete inputs: five dollars of BNB for USDT on BSC.
use lazyswap.Prelude.{◌↔◌, ◌+◌, ◌≤◌, ◌≡◌, refl, ℕ, List, [], ◌∷◌, length}
use lazyswap.Prelude.Text.{Bytes, codes, text_eq}
use lazyswap.Prelude.Result.{ok, err}
use lazyswap.Chain.{bsc}
use lazyswap.Error.{wrapped, external, parse_private_key}
use lazyswap.Swap.Io.{World}
use lazyswap.Swap.Io.Sends.{AllSent}
use lazyswap.Swap.Token.{TokenInfo, native_token}
use lazyswap.Swap.Quote.{min_output_for}
use lazyswap.Swap.Quote.Minimum.{IsMinimum, min_output_for-IsMinimum}
use lazyswap.Swap.Executor.{trim_0x, Executor, new_executor}
use lazyswap.Swap.Executor.Safe.{IsAuthorised}
use lazyswap.Swap.Flow.{execute_steps, quote, execute}
use lazyswap.Swap.Flow.Safe.{quote-sent, execute-IsAuthorised}
use lazyswap.Swap.Flow.Count.{execute_at_most_two}
use lazyswap.Examples.Samples.{whole_floats, node_client, idle_world}

abbrev pub usdt : TokenInfo
usdt = record {
  symbol = codes "USDT";
  address = codes "0x55d398326f99059fF775485246999027B3197955";
  decimals = 18;
}

abbrev pub bnb : TokenInfo
bnb = native_token bsc

abbrev sample_executor : Executor
sample_executor = record { chain = bsc; private_key = 7; from = 8 }

key_opens : new_executor node_client bsc (codes "01") ≡ ok sample_executor
unfolding new_executor trim_0x
key_opens = refl

no_key :
    new_executor node_client bsc [] ≡ err (wrapped parse_private_key (external (codes "no key")))
unfolding new_executor trim_0x
no_key = refl

protected : min_output_for whole_floats (codes "5") 0 18 ≡ ok (codes "5")
unfolding min_output_for lazyswap.Balance.parse_units lazyswap.Balance.format_units
    lazyswap.Prelude.Text.trim_space lazyswap.Balance.parse_parts lazyswap.Balance.split_dot
protected = refl

min_output_for-IsMinimum_example :
    (min_output_for whole_floats (codes "5") 0 18 ≡ ok (codes "5"))
    ↔ IsMinimum whole_floats (codes "5") 0 18 (codes "5")
min_output_for-IsMinimum_example =
    min_output_for-IsMinimum whole_floats (codes "5") (codes "5") 0 18

quote-sent_example :
    (quote whole_floats node_client bsc bnb usdt (codes "5") 0 (codes "0x01") idle_world).1.sent
    ≡ []
quote-sent_example =
    quote-sent whole_floats node_client bsc bnb usdt (codes "5") 0 (codes "0x01") idle_world

execute-IsAuthorised_example :
    AllSent
      (IsAuthorised node_client sample_executor)
      (execute whole_floats node_client bsc (codes "01") bnb usdt (codes "5") 0 idle_world).1.sent
execute-IsAuthorised_example =
    execute-IsAuthorised whole_floats node_client bsc (codes "01") sample_executor bnb usdt
      (codes "5") 0 idle_world key_opens tt

execute_at_most_two_example :
    length
      (execute whole_floats node_client bsc (codes "01") bnb usdt (codes "5") 0 idle_world).1.sent
    ≤ length idle_world.sent + 2
execute_at_most_two_example =
    execute_at_most_two whole_floats node_client bsc (codes "01") bnb usdt (codes "5") 0 idle_world

execute_test :
    length
      (execute whole_floats node_client bsc (codes "01") bnb usdt (codes "5") 0 idle_world).1.sent
    ≡ 1
unfolding execute execute_steps lazyswap.Swap.Io.◌>>=◌ lazyswap.Swap.Io.lift
    lazyswap.Swap.Flow.parse_positive lazyswap.Balance.parse_units lazyswap.Prelude.Text.trim_space
    lazyswap.Balance.parse_parts lazyswap.Balance.split_dot new_executor trim_0x
    lazyswap.Swap.Flow.convert_usd_to_token_amount lazyswap.Balance.format_units
    lazyswap.Swap.Token.stablecoin_decimals bsc lazyswap.Prelude.Text.to_lower
    lazyswap.Swap.Flow.find_amount lazyswap.Swap.Flow.try_route lazyswap.Prelude.Text.equal_fold
    lazyswap.Balance.big_string lazyswap.Balance.contains_dot lazyswap.Balance.decimal_value
    lazyswap.Balance.digits lazyswap.Balance.set_string lazyswap.Balance.trim_suffix_dot
    lazyswap.Balance.trim_trailing_zeros text_eq lazyswap.Prelude.Text.trim_left
    lazyswap.Prelude.Text.trim_right lazyswap.Swap.Executor.allowance_of
    lazyswap.Swap.Executor.approve_token lazyswap.Swap.Executor.check_allowance
    lazyswap.Swap.Executor.ensure_allowance lazyswap.Swap.Executor.execute_buy_with_native
    lazyswap.Swap.Executor.execute_full_swap lazyswap.Swap.Executor.execute_sell_for_native
    lazyswap.Swap.Executor.execute_swap lazyswap.Swap.Executor.settle lazyswap.Swap.Executor.tx_opts
    lazyswap.Swap.Executor.validate_amounts lazyswap.Swap.Executor.validate_swap_inputs
    lazyswap.Swap.Flow.call_amounts_out lazyswap.Swap.Io.attempt lazyswap.Swap.Io.call_contract
    lazyswap.Swap.Io.fail lazyswap.Swap.Io.label lazyswap.Swap.Io.pure lazyswap.Swap.Io.send
    lazyswap.Swap.Io.unix_now lazyswap.Swap.Io.wait lazyswap.Swap.Quote.get_price min_output_for
    lazyswap.Swap.Quote.price_of lazyswap.Swap.Quote.quote_get lazyswap.Swap.Token.resolve_address
    lazyswap.Swap.Token.resolve_decimals
execute_test = refl
