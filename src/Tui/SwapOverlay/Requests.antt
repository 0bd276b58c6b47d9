-- ===== src/Tui/SwapOverlay/Requests.antt =====
-- What the overlay asks its parent to execute.
use lazyswap.Prelude.{
  Bool, false, if◌then◌else◌, ◌&&◌, List, [], arith, null, suc, true, ℕ, ◌+◌, ◌∷◌, ◌≡◌, ◌≤◌,
}
use lazyswap.Prelude.Result.{err, ok}
use lazyswap.Tui.SwapOverlay.{
  Cmd, Model, Msg, Step, Widgets, confirm, execute_request, handle_amount_step, handle_from_step,
  handle_key, handle_preview_step, handle_step, handle_to_step, new, on_quote, preview_step,
  quote_result, run, step_back, update,
}

abbrev is_preview : Step → Bool
is_preview preview_step = true
is_preview _ = false

-- the requests to execute a swap among the commands
abbrev pub executions : List Cmd → ℕ
executions [] = 0
executions (execute_request from to usd ∷ cs) = suc (executions cs)
executions (_ ∷ cs) = executions cs

module _ (w : Widgets) (Quote Report Outcome : Type 0) (enter_key : w.Key) where
  abbrev Model' : Type 0
  Model' = Model w Quote Report Outcome

  -- 1 on a preview that shows no error
  abbrev at_preview : Model' → ℕ
  at_preview m = if is_preview m.step && null m.quote_err then 1 else 0

  -- the quotes that arrive among the messages; a failed quote counts only where its error has no
  -- text
  abbrev pub quotes : List (Msg w Quote Report Outcome) → ℕ
  quotes [] = 0
  quotes (quote_result (ok q) pending ∷ msgs) = suc (quotes msgs)
  quotes (quote_result (err e) pending ∷ msgs) =
      let rest = quotes msgs in if null e then suc rest else rest
  quotes (_ ∷ msgs) = quotes msgs

  -- One step pays for a request to execute with the preview that it leaves.
  abbrev Pays : (before : ℕ) → Model' × Cmd → Type 0
  Pays before (n, c) = executions (c ∷ []) + at_preview n ≤ before

  update-Pays :
      (msg : Msg w Quote Report Outcome) (m : Model')
      → Pays (at_preview m + quotes (msg ∷ [])) (update w Quote Report Outcome enter_key msg m)
  unfolding update handle_key handle_step handle_from_step handle_to_step handle_amount_step
      handle_preview_step confirm step_back on_quote
  update-Pays msg m = ground arith

  executions_more :
      (c : Cmd) (cs : List Cmd) → executions (c ∷ cs) ≡ executions (c ∷ []) + executions cs
  executions_more c cs = ground arith

  quotes_more :
      (msg : Msg w Quote Report Outcome) (msgs : List (Msg w Quote Report Outcome))
      → quotes (msg ∷ msgs) ≡ quotes (msg ∷ []) + quotes msgs
  quotes_more msg msgs = ground arith

  paid :
      (msgs : List (Msg w Quote Report Outcome)) (m : Model')
      → executions (run w Quote Report Outcome enter_key msgs m).1 ≤ at_preview m + quotes msgs
  unfolding run
  paid [] m = omega arith
  paid (msg ∷ msgs) m =
      let (n, c) = update w Quote Report Outcome enter_key msg m in
      omega (
        arith,
        paid msgs n,
        update-Pays msg m,
        quotes_more msg msgs,
        executions_more c (run w Quote Report Outcome enter_key msgs n).1,
      )

  -- From the start of the overlay, whatever keys and results come in whatever order, it never asks
  -- for more executions than it was given quotes; a quote that failed with a text for its error is
  -- none.
  pub new-executions :
      (from_list to_list : w.Picker) (msgs : List (Msg w Quote Report Outcome))
      → executions
          (run w Quote Report Outcome enter_key msgs
            (new w Quote Report Outcome from_list to_list)).1
        ≤ quotes msgs
  unfolding new
  new-executions from_list to_list msgs =
      omega (arith, paid msgs (new w Quote Report Outcome from_list to_list))

  -- What a request to execute asks for.
  abbrev pub AsksFor : Model' → Cmd → Type 0
  AsksFor m (execute_request from to usd) =
      (m.step ≡ preview_step)
      × (null m.quote_err ≡ true)
      × (from ≡ m.selected_from)
      × (to ≡ m.selected_to)
      × (usd ≡ m.usd_amount)
  AsksFor m _ = Unit

  -- A request to execute a swap is made on the preview alone, where no quote error is shown, and
  -- names the tokens and the amount that are selected there.
  pub update-AsksFor :
      (msg : Msg w Quote Report Outcome) (m : Model')
      → AsksFor m (update w Quote Report Outcome enter_key msg m).1
  unfolding update handle_key handle_step handle_from_step handle_to_step handle_amount_step
      handle_preview_step confirm step_back on_quote
  update-AsksFor msg m = ground arith
