-- ===== src/Examples/Screens.antt =====
-- The overlays at concrete inputs: a phrase of two words, and a swap that is confirmed twice.
use mathlib.Core.List.{Memᴰ}
use lazyswap.Tui.Seed
use lazyswap.Prelude.{
  List, Option, [], ap, append-nil, append_assoc, arith, false, map, none, refl, some, sym, ℕ, ◌++◌,
  ◌∙◌, ◌∷◌, ◌≡◌, ◌≤◌, ◌⊎◌,
}
use lazyswap.Prelude.Result.{ok}
use lazyswap.Prelude.Text.{Bytes, codes, fields}
use lazyswap.Examples.Swaps.{bnb, usdt}
use lazyswap.Swap.Token.{TokenInfo}
use lazyswap.Tui.Seed.{TextInput, get_elem?, new_backup}
use lazyswap.Tui.Seed.Confirms.{Completes, HasTyping, feed, new_backup-Completes}
use lazyswap.Tui.Seed.Runs.{answers, new_backup-confirmed}
use lazyswap.Tui.Seed.Steps.{confirmations}
use lazyswap.Tui.SwapOverlay.{
  Model, Msg, Widgets, enter, key, new, other_key, quote_result, run, update,
}
use lazyswap.Tui.SwapOverlay.Requests.{executions, new-executions, quotes}

-- An input holds what was typed.
abbrev typewriter : TextInput
typewriter = record {
  Input = Bytes;
  Event = ℕ;
  blank = [];
  value = λ s. s;
  set_value = λ v s. v;
  change = λ c s. s ++ c ∷ [];
}

abbrev sample_phrase : Bytes
sample_phrase = codes "ab cd"

abbrev typing : List (Seed.Msg ℕ)
typing =
    Seed.enter
    ∷ Seed.key b'a'
    ∷ Seed.key b'b'
    ∷ Seed.enter
    ∷ Seed.key b'x'
    ∷ Seed.enter
    ∷ Seed.key b'c'
    ∷ Seed.key b'd'
    ∷ Seed.enter
    ∷ Seed.enter
    ∷ []

new_backup-confirmed_example :
    (n : Seed.Model Bytes) × (cs : List Seed.Cmd) × (Seed.run typewriter typing
        (new_backup typewriter sample_phrase (0, 1))
      ≡ some (n, cs))
    × ((confirmations cs ≡ [])
        ⊎ ((confirmations cs ≡ sample_phrase ∷ [])
            × (n.step ≡ Seed.done)
            × Memᴰ
                (codes "ab")
                (answers typewriter typing (new_backup typewriter sample_phrase (0, 1)))
            × Memᴰ
                (codes "cd")
                (answers typewriter typing (new_backup typewriter sample_phrase (0, 1)))))
unfolding fields get_elem?
new_backup-confirmed_example =
    new_backup-confirmed typewriter sample_phrase (0, 1) (codes "ab") (codes "cd") typing refl refl
      (tt, (tt, (tt, (tt, (tt, (tt, (tt, (tt, (tt, (tt, tt))))))))))

abbrev confirmed_of : Option (Seed.Model Bytes × List Seed.Cmd) → List Bytes
confirmed_of none = []
confirmed_of (some (m, cs)) = confirmations cs

confirmed_test :
    confirmed_of (Seed.run typewriter typing (new_backup typewriter sample_phrase (0, 1)))
    ≡ sample_phrase ∷ []
unfolding Seed.run new_backup Seed.enter_show Seed.check_quiz_word Seed.wanted fields
    Seed.check_word lazyswap.Prelude.Text.text_eq lazyswap.Prelude.Text.to_lower
    lazyswap.Prelude.Text.trim_space
confirmed_test = refl

abbrev plain_widgets : Widgets
plain_widgets = record {
  Picker = Option TokenInfo;
  Input = Bytes;
  Key = ℕ;
  selected = λ p. p;
  move = λ k p. p;
  blank = [];
  value = λ s. s;
  change = λ k s. s ++ k ∷ [];
  focus = λ s. s;
  blur = λ s. s;
}

abbrev Unitary : Type 0
Unitary = Unit

-- The amount is entered twice, so that two quotes arrive; each is confirmed.
abbrev twice : List (Msg plain_widgets Unitary Unitary Unitary)
twice =
    key enter
    ∷ key enter
    ∷ key (other_key b'5')
    ∷ key enter
    ∷ key enter
    ∷ quote_result (ok tt) false
    ∷ key enter
    ∷ quote_result (ok tt) false
    ∷ key enter
    ∷ []

abbrev overlay : Model plain_widgets Unitary Unitary Unitary
overlay = new plain_widgets Unitary Unitary Unitary (some bnb) (some usdt)

new-executions_example :
    executions (run plain_widgets Unitary Unitary Unitary 13 twice overlay).1
    ≤ quotes plain_widgets Unitary Unitary Unitary 13 twice
new-executions_example =
    new-executions plain_widgets Unitary Unitary Unitary 13 (some bnb) (some usdt) twice

-- The second quote takes the overlay back from the execution to the preview, and the swap is asked
-- for a second time.
executed_twice : executions (run plain_widgets Unitary Unitary Unitary 13 twice overlay).1 ≡ 2
unfolding run update lazyswap.Tui.SwapOverlay.handle_key lazyswap.Tui.SwapOverlay.handle_step new
    lazyswap.Tui.SwapOverlay.handle_from_step lazyswap.Tui.SwapOverlay.handle_to_step
    lazyswap.Prelude.Text.equal_fold lazyswap.Tui.SwapOverlay.handle_amount_step
    lazyswap.Prelude.Text.trim_space lazyswap.Tui.SwapOverlay.on_quote
    lazyswap.Tui.SwapOverlay.handle_preview_step lazyswap.Tui.SwapOverlay.confirm
executed_twice = refl

typewriter-HasTyping : HasTyping typewriter
typewriter-HasTyping = record {
  keys = λ w. w;
  starts_empty = refl;
  cleared = λ i. refl;
  types = λ w i word empty. fed w i ∙ ap (λ s. s ++ w) empty;
}
  where
    fed : (w i : Bytes) → feed typewriter w i ≡ i ++ w
    fed [] i = sym (append-nil i)
    fed (c ∷ w) i = fed w (i ++ c ∷ []) ∙ append_assoc i (c ∷ []) w

new_backup-Completes_example :
    Completes typewriter sample_phrase
      (Seed.enter
        ∷ (map Seed.key (typewriter-HasTyping.keys (codes "ab"))
            ++ Seed.enter
              ∷ (map Seed.key (typewriter-HasTyping.keys (codes "cd")) ++ Seed.enter ∷ [])))
      (new_backup typewriter sample_phrase (0, 1))
unfolding fields get_elem?
new_backup-Completes_example =
    new_backup-Completes typewriter sample_phrase (0, 1) (codes "ab") (codes "cd")
      typewriter-HasTyping refl refl (refl, omega arith) (refl, omega arith)
