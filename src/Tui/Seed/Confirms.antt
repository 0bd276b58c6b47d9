-- ===== src/Tui/Seed/Confirms.antt =====
-- The backup of a phrase can be completed: typing the two words confirms it.
use lazyswap.Prelude.{
  Bool, List, Option, [], all, and_split, ap, ap₂, arith, leb, length, map, none, refl, some, subst,
  sym, true, ℕ, ◌&&◌, ◌++◌, ◌∙◌, ◌∷◌, ◌≡◌, ◌≤◌,
}
use lazyswap.Prelude.Text.{
  Bytes, fields, lower_byte, text_eq_refl, to_lower, trim_space, is_graphic, trim_space-graphic,
}
use lazyswap.Tui.Seed.{
  Cmd, Model, Msg, TextInput, and_then, check_quiz_word, check_word, confirmed, done, enter,
  enter_show, get_elem?, key, new_backup, no_cmd, on_enter, pick_at, quiz, run, typed, update,
  update_at, wanted, word_at,
}
use lazyswap.Tui.Seed.Steps.{confirmations}

abbrev is_letter : ℕ → Bool
is_letter c = leb b'a' c && leb c b'z'

-- A word of the quiz that fits into the input: lower-case letters, at most 128.
abbrev pub IsWord : Bytes → Type 0
IsWord w = (all is_letter w ≡ true) × (length w ≤ 128)

same_letter : (c : ℕ) → is_letter c ≡ true → lower_byte c ≡ c
same_letter c h = ground arith

graphic_letters : (w : Bytes) → all is_letter w ≡ true → all is_graphic w ≡ true
graphic_letters [] h = refl
graphic_letters (c ∷ w) h = ground (arith, graphic_letters w)

to_lower_letters : (w : Bytes) → all is_letter w ≡ true → to_lower w ≡ w
unfolding to_lower
to_lower_letters [] h = refl
to_lower_letters (c ∷ w) h =
    let (letter, letters) = and_split (is_letter c) (all is_letter w) h in
    ap₂ ◌∷◌ (same_letter c letter) (to_lower_letters w letters)

normal : (w : Bytes) → all is_letter w ≡ true → to_lower (trim_space w) ≡ w
normal w h = rw (trim_space-graphic w (graphic_letters w h)) (to_lower_letters w h)

module _ (ti : TextInput) where
  open ti use {Input, Event, blank, value, set_value, change}

  abbrev pub feed : List Event → Input → Input
  feed [] i = i
  feed (e ∷ es) i = feed es (change e i)

  -- What Bubble Tea documents of a text input with a limit of 128 characters: it starts empty,
  -- SetValue replaces its text, and the keys of a word append it.
  pub record HasTyping : Type 0 where
    pub keys : Bytes → List Event
    pub starts_empty : value blank ≡ []
    pub cleared : (i : Input) → value (set_value [] i) ≡ []
    pub types : (w : Bytes) (i : Input) → IsWord w → value i ≡ [] → value (feed (keys w) i) ≡ w

  -- The messages complete the backup of the phrase.
  abbrev pub Completes : Bytes → List (Msg Event) → Model Input → Type 0
  Completes phrase msgs m =
      (n : Model Input) × (cs : List Cmd) × (run ti msgs m ≡ some (n, cs))
      × (confirmations cs ≡ phrase ∷ [])
      × (n.step ≡ done)

  after_step :
      {phrase : Bytes} (msg : Msg Event) (msgs : List (Msg Event)) (m n : Model Input)
      → update ti msg m ≡ some (n, no_cmd)
      → Completes phrase msgs n
      → Completes phrase (msg ∷ msgs) m
  unfolding run
  after_step msg msgs m n taken (o, cs, ran, told, at_end) =
      (o, no_cmd ∷ cs, ap (and_then ti (run ti msgs)) taken ∙ rw (and_then, ran) refl, told, at_end)

  after_keys :
      {phrase : Bytes} (es : List Event) (msgs : List (Msg Event)) (m : Model Input)
      → m.step ≡ quiz
      → Completes phrase msgs (record m { input = feed es m.input })
      → Completes phrase (map key es ++ msgs) m
  unfolding update update_at
  after_keys [] msgs m e rest = rest
  after_keys (x ∷ es) msgs m e rest =
      after_step (key x) (map key es ++ msgs) m (record m { input = change x m.input }) typed_on
        (after_keys es msgs (record m { input = change x m.input }) e rest)
    where
      typed_on : update ti (key x) m ≡ some (record m { input = change x m.input }, no_cmd)
      typed_on =
          subst
            (λ s. update_at ti s (key x) m ≡ some (record m { input = change x m.input }, no_cmd))
            (sym e) refl

  -- enter on the right word
  right_word :
      (m : Model Input) (i : ℕ) (w : Bytes) (r : Model Input × Cmd)
      → m.step ≡ quiz
      → wanted ti m ≡ some (i, w)
      → typed ti m ≡ w
      → check_word ti (i, w) m ≡ r
      → update ti enter m ≡ some r
  unfolding update update_at on_enter check_quiz_word
  right_word m i w r e found same checked =
      subst (λ s. update_at ti s enter m ≡ some r) (sym e)
        (ap
            (λ (o : Option (ℕ × Bytes)). elim o [
              | none ↦ none
              | some want ↦ some (check_word ti want m)
            ])
            found
          ∙ ap some checked)

  -- Enter on the phrase, and each of the two words followed by enter, confirm the phrase of a backup
  -- whose quiz asks for words of at most 128 lower-case letters.
  pub new_backup-Completes :
      (phrase : Bytes) (picks : ℕ × ℕ) (first second : Bytes) (typing : HasTyping)
      → get_elem? (fields phrase) picks.0 ≡ some first
      → get_elem? (fields phrase) picks.1 ≡ some second
      → IsWord first
      → IsWord second
      → Completes phrase
          (enter
            ∷ (map key (typing.keys first) ++ enter ∷ (map key (typing.keys second) ++ enter ∷ [])))
          (new_backup ti phrase picks)
  unfolding new_backup update update_at on_enter enter_show wanted pick_at check_word typed run
  new_backup-Completes phrase picks first second typing a b word_a word_b =
      after_step enter (map key (typing.keys first) ++ enter ∷ second_answer)
        (new_backup ti phrase picks) shown refl
        (after_keys (typing.keys first) (enter ∷ second_answer) shown refl (
          after_step enter second_answer typed_first asked_second
            (right_word typed_first picks.0 first _ refl (rw (word_at, a) refl)
              (text_is first word_a blank typing.starts_empty) (first_checked))
            (after_keys (typing.keys second) (enter ∷ []) asked_second refl (
              finished,
              confirmed phrase ∷ [],
              ap (and_then ti (run ti [])) (
                  right_word typed_second picks.1 second (finished, confirmed phrase) refl
                    (rw (word_at, b) refl)
                    (text_is second word_b (set_value [] typed_first.input) (typing.cleared _))
                    second_checked),
              refl,
              refl,
            ))))
    where
      second_answer : List (Msg Event)
      second_answer = map key (typing.keys second) ++ enter ∷ []

      text_is :
          (w : Bytes)
          → IsWord w
          → (i : Input) → value i ≡ []
          → to_lower (trim_space (value (feed (typing.keys w) i))) ≡ w
      text_is w word i empty =
          ap (λ s. to_lower (trim_space s)) (typing.types w i word empty) ∙ normal w word.0

      shown : Model Input
      shown = record (new_backup ti phrase picks) { step = quiz }

      typed_first : Model Input
      typed_first = record shown { input = feed (typing.keys first) blank }

      asked_second : Model Input
      asked_second = record typed_first {
        input = set_value [] typed_first.input;
        err_msg = [];
        asked = 1;
      }

      typed_second : Model Input
      typed_second = record asked_second { input = feed (typing.keys second) asked_second.input }

      finished : Model Input
      finished = record typed_second {
        input = set_value [] typed_second.input;
        err_msg = [];
        asked = 2;
        step = done;
      }

      first_checked : check_word ti (picks.0, first) typed_first ≡ (asked_second, no_cmd)
      first_checked =
          rw (text_is first word_a blank typing.starts_empty) (rw (text_eq_refl first) refl)

      second_checked : check_word ti (picks.1, second) typed_second ≡ (finished, confirmed phrase)
      second_checked =
          rw (text_is second word_b (set_value [] typed_first.input) (typing.cleared _))
            (rw (text_eq_refl second) refl)
