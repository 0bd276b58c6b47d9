-- ===== src/Tui/SwapOverlay.antt =====
-- internal/tui/overlays/swapoverlay/swap.go: the modal swap flow, from the choice of the tokens to the
-- result. The lists and the text input are Bubble Tea's.
pub mod Requests
use lazyswap.Prelude.{
  Bool, List, Option, [], false, if◌then◌else◌, none, null, some, true, ◌++◌, ◌∷◌,
}
use lazyswap.Prelude.Result.{Result, err, ok}
use lazyswap.Prelude.Text.{Bytes, codes, equal_fold, trim_space}
use lazyswap.Swap.Token.{TokenInfo}

pub data Step : Type 0 where
  from_step to_step amount_step preview_step executing_step done_step : Step

-- list.Model, with the item under its cursor, and textinput.Model; their look is not modelled
pub record Widgets : Type 1 where
  pub Picker : Type 0
  pub Input : Type 0
  pub Key : Type 0
  pub selected : Picker → Option TokenInfo
  pub move : Key → Picker → Picker
  pub blank : Input
  pub value : Input → Bytes
  pub change : Key → Input → Input
  pub focus : Input → Input
  pub blur : Input → Input

-- The key presses that the overlay tells apart, and the others. `y` and `n` may be capital.
pub data KeyMsg (Key : Type 0) : Type 0 where
  esc enter : KeyMsg Key
  yes_key no_key other_key : Key → KeyMsg Key

-- CancelMsg, QuoteRequestMsg and ExecuteRequestMsg to the parent
pub data Cmd : Type 0 where
  no_cmd cancel_cmd blink_cmd : Cmd
  quote_request execute_request : (from to : TokenInfo) (usd_amount : Bytes) → Cmd

module _ (w : Widgets) (Quote Report Outcome : Type 0) where
  open w use {Picker, Input, Key, selected, move, blank, value, change, focus, blur}

  pub data Msg : Type 0 where
    quote_result : Result Bytes Quote → (safety_pending : Bool) → Msg
    safety_result : Report → Msg
    execution_result : Outcome → Msg
    key : KeyMsg Key → Msg

  -- An item of the lists is the token that it stands for.
  pub record Model : Type 0 where
    pub from : Picker
    pub to : Picker
    pub amount : Input
    pub step : Step
    pub selected_from : TokenInfo
    pub selected_to : TokenInfo
    pub usd_amount : Bytes
    pub quote : Option Quote
    pub quote_err : Bytes
    pub exec_msg : Bytes
    pub exec_res : Option Outcome
    pub risk : Option Report
    pub risk_pending : Bool

  abbrev no_token : TokenInfo
  no_token = record { symbol = []; address = []; decimals = 0 }

  -- New, over the two lists that it builds
  unfoldable pub new : Picker → Picker → Model
  new from_list to_list = record {
    from = from_list;
    to = to_list;
    amount = blank;
    step = from_step;
    selected_from = no_token;
    selected_to = no_token;
    usd_amount = [];
    quote = none;
    quote_err = [];
    exec_msg = [];
    exec_res = none;
    risk = none;
    risk_pending = false;
  }

  -- stepBack, by the step
  unfoldable pub step_back : Step → Model → Model × Cmd
  step_back from_step m = (m, cancel_cmd)
  step_back executing_step m = (m, cancel_cmd)
  step_back done_step m = (m, cancel_cmd)
  step_back to_step m = (record m { step = from_step }, no_cmd)
  step_back amount_step m = (record m { amount = blur m.amount; step = to_step }, no_cmd)
  step_back preview_step m = (
    record m { step = amount_step; amount = focus m.amount; quote = none; quote_err = [] },
    blink_cmd,
  )

  -- A key that is not handled goes to the list or to the input; the enter key does too. What it is
  -- there is `enter_key`.
  module _ (enter_key : Key) where
    abbrev raw_key : KeyMsg Key → Key
    raw_key esc = enter_key
    raw_key enter = enter_key
    raw_key (yes_key k) = k
    raw_key (no_key k) = k
    raw_key (other_key k) = k

    abbrev is_enter : KeyMsg Key → Bool
    is_enter enter = true
    is_enter _ = false

    abbrev chosen_from : KeyMsg Key → Option TokenInfo → Model → Model × Cmd
    chosen_from k none m = (record m { from = move (raw_key k) m.from }, no_cmd)
    chosen_from k (some item) m = (record m { selected_from = item; step = to_step }, no_cmd)

    -- handleFromStep
    unfoldable pub handle_from_step : KeyMsg Key → Model → Model × Cmd
    handle_from_step k m = chosen_from k (if is_enter k then selected m.from else none) m

    abbrev chosen_to : KeyMsg Key → Option TokenInfo → Model → Model × Cmd
    chosen_to k none m = (record m { to = move (raw_key k) m.to }, no_cmd)
    chosen_to k (some item) m =
        if equal_fold item.address m.selected_from.address then (m, no_cmd) else (
          record m { selected_to = item; step = amount_step; amount = focus m.amount },
          blink_cmd,
        )

    -- handleToStep
    unfoldable pub handle_to_step : KeyMsg Key → Model → Model × Cmd
    handle_to_step k m = chosen_to k (if is_enter k then selected m.to else none) m

    -- handleAmountStep; the step stays as it is until the quote arrives
    unfoldable pub handle_amount_step : KeyMsg Key → Model → Model × Cmd
    handle_amount_step k m =
        if is_enter k
        then (let v = trim_space (value m.amount) in
            if null v then (m, no_cmd) else (
              record m { usd_amount = v; amount = blur m.amount },
              quote_request m.selected_from m.selected_to v,
            ))
        else (record m { amount = change (raw_key k) m.amount }, no_cmd)

    -- the case "y", "enter" of handlePreviewStep; its message ends in the three bytes of an ellipsis
    unfoldable pub confirm : Model → Model × Cmd
    confirm m =
        if null m.quote_err
        then (
          record m {
            step = executing_step;
            exec_msg = codes "Submitting transaction" ++ 226 ∷ 128 ∷ 166 ∷ [];
          },
          execute_request m.selected_from m.selected_to m.usd_amount,
        )
        else (m, no_cmd)

    -- handlePreviewStep
    unfoldable pub handle_preview_step : KeyMsg Key → Model → Model × Cmd
    handle_preview_step enter m = confirm m
    handle_preview_step (yes_key k) m = confirm m
    handle_preview_step (no_key k) m = step_back m.step m
    handle_preview_step _ m = (m, no_cmd)

    -- handleKey behind the test for ESC
    unfoldable pub handle_step : Step → KeyMsg Key → Model → Model × Cmd
    handle_step from_step k m = handle_from_step k m
    handle_step to_step k m = handle_to_step k m
    handle_step amount_step k m = handle_amount_step k m
    handle_step preview_step k m = handle_preview_step k m
    handle_step executing_step k m = (m, no_cmd)
    handle_step done_step k m = (m, cancel_cmd)

    -- handleKey
    unfoldable pub handle_key : KeyMsg Key → Model → Model × Cmd
    handle_key esc m = step_back m.step m
    handle_key k m = handle_step m.step k m

    -- the case QuoteResultMsg of Update
    unfoldable pub on_quote : Result Bytes Quote → Bool → Model → Model
    on_quote (err e) pending m = record m {
      quote_err = e;
      quote = none;
      risk = none;
      risk_pending = false;
      step = preview_step;
    }
    on_quote (ok q) pending m = record m {
      quote = some q;
      quote_err = [];
      risk = none;
      risk_pending = pending;
      step = preview_step;
    }

    -- Update
    unfoldable pub update : Msg → Model → Model × Cmd
    update (quote_result r pending) m = (on_quote r pending m, no_cmd)
    update (safety_result report) m =
        (record m { risk = some report; risk_pending = false }, no_cmd)
    update (execution_result r) m = (record m { exec_res = some r; step = done_step }, no_cmd)
    update (key k) m = handle_key k m

    -- the overlay over a sequence of messages
    unfoldable pub run : List Msg → Model → Model × List Cmd
    run [] m = (m, [])
    run (msg ∷ msgs) m = let (n, c) = update msg m in let (o, cs) = run msgs n in (o, c ∷ cs)
