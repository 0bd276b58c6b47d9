-- ===== src/Tui/Seed.antt =====
-- internal/tui/overlays/seedoverlay/seed.go: the recovery phrase of a wallet, shown after a password
-- or backed up with a quiz of two of its words.
pub mod Steps
pub mod Runs
pub mod Confirms
use lazyswap.Prelude.{
  Bool, List, Option, [], false, if◌then◌else◌, leb, ltb, none, null, some, suc, true, zero, ℕ,
  ◌++◌, ◌+◌, ◌-◌, ◌||◌, ◌∷◌,
}
use lazyswap.Prelude.Int.{pos}
use lazyswap.Prelude.Result.{Result, err, ok, ◌>>=◌}
use lazyswap.Prelude.Text.{Bytes, codes, fields, text_eq, to_lower, trim_space}
use lazyswap.Balance.{big_string}

-- the steps of the overlay
pub data Step : Type 0 where
  password show quiz done : Step

-- textinput.Model of Bubble Tea, whose look is not modelled: an input holds a text, and messages of
-- its own change it
pub record TextInput : Type 1 where
  pub Input : Type 0
  pub Event : Type 0
  pub blank : Input
  pub value : Input → Bytes
  pub set_value : Bytes → Input → Input
  pub change : Event → Input → Input

pub data Msg (Event : Type 0) : Type 0 where
  -- revealedMsg
  revealed : Result Bytes Bytes → Msg Event
  esc enter : Msg Event
  -- any other key, and any other message
  key other_msg : Event → Msg Event

-- The commands: `ask_verify` runs the parent's check of the password, whose answer is `revealed`.
pub data Cmd : Type 0 where
  no_cmd close_cmd : Cmd
  ask_verify confirmed : Bytes → Cmd

pub record Model (Input : Type 0) : Type 0 where
  pub backup : Bool
  pub step : Step
  pub address : Bytes
  pub phrase : Bytes
  pub words : List Bytes
  pub picks : ℕ × ℕ
  pub asked : ℕ
  pub input : Input
  pub err_msg : Bytes
  pub busy : Bool

-- `words[i]`; `none` is the panic of an index out of range
unfoldable pub get_elem? {ℓ} : {A : Type ℓ} → List A → ℕ → Option A
get_elem? [] i = none
get_elem? (x ∷ xs) zero = some x
get_elem? (x ∷ xs) (suc i) = get_elem? xs i

-- `picks[i]` of an array of two
unfoldable pub pick_at : ℕ × ℕ → ℕ → Option ℕ
pick_at (a, b) zero = some a
pick_at (a, b) (suc zero) = some b
pick_at (a, b) (suc (suc i)) = none

-- RandomPicks: `below n` is what rand.Int returns for the bound n, the first call and the second
unfoldable pub random_picks : (first second : ℕ → Result Bytes ℕ) → ℕ → Result Bytes (ℕ × ℕ)
random_picks first second n = do
  a ← first n
  b ← second (n - 1)
  let c = if leb a b then b + 1 else b
  ok (if ltb c a then (c, a) else (a, c))

module _ (ti : TextInput) where
  open ti use {Input, Event, blank, value, set_value, change}

  -- setPhrase
  unfoldable pub set_phrase : Bytes → Model Input → Model Input
  set_phrase p m = record m { phrase = p; words = fields p }

  -- NewReveal
  unfoldable pub new_reveal : Bytes → Model Input
  new_reveal address = record {
    backup = false;
    step = password;
    address = address;
    phrase = [];
    words = [];
    picks = (0, 0);
    asked = 0;
    input = blank;
    err_msg = [];
    busy = false;
  }

  -- NewBackup
  unfoldable pub new_backup : Bytes → ℕ × ℕ → Model Input
  unfolding set_phrase
  new_backup phrase picks = set_phrase phrase (record {
    backup = true;
    step = show;
    address = [];
    phrase = [];
    words = [];
    picks = picks;
    asked = 0;
    input = blank;
    err_msg = [];
    busy = false;
  })

  -- onRevealed
  unfoldable pub on_revealed : Result Bytes Bytes → Model Input → Model Input
  unfolding set_phrase
  on_revealed (err e) m = record m { busy = false; err_msg = e }
  on_revealed (ok phrase) m = record (set_phrase phrase (record m { busy = false })) { step = show }

  abbrev pub word_at : List Bytes → Option ℕ → Option (ℕ × Bytes)
  word_at words none = none
  word_at words (some i) = elim (get_elem? words i) [ none ↦ none | some w ↦ some (i, w) ]

  -- the position and the word that the quiz asks for
  unfoldable pub wanted : Model Input → Option (ℕ × Bytes)
  unfolding get_elem? pick_at
  wanted m = word_at m.words (pick_at m.picks m.asked)

  -- the word that was typed
  unfoldable pub typed : Model Input → Bytes
  typed m = to_lower (trim_space (value m.input))

  -- the message of a wrong word; its dash is the three bytes of UTF-8
  abbrev pub wrong_word : ℕ → Bytes
  wrong_word i =
      codes "that is not word #"
      ++ big_string (pos (i + 1))
      ++ b' ' ∷ 226 ∷ 128 ∷ 148 ∷ codes " check your copy and try again"

  -- checkQuizWord behind the index
  unfoldable pub check_word : ℕ × Bytes → Model Input → Model Input × Cmd
  unfolding typed
  check_word (i, want) m =
      let cleared = record m { input = set_value [] m.input } in
      if text_eq (typed m) want
      then (let answered = record cleared { err_msg = []; asked = m.asked + 1 } in
          if ltb (m.asked + 1) 2
          then (answered, no_cmd)
          else (record answered { step = done }, confirmed m.phrase))
      else (record cleared { err_msg = wrong_word i }, no_cmd)

  -- checkQuizWord
  unfoldable pub check_quiz_word : Model Input → Option (Model Input × Cmd)
  check_quiz_word m = elim (wanted m) [ none ↦ none | some want ↦ some (check_word want m) ]

  -- the case stepPassword of onEnter
  unfoldable pub enter_password : Model Input → Model Input × Cmd
  enter_password m = if m.busy || null (value m.input) then (m, no_cmd) else (
    record m { busy = true; err_msg = []; input = set_value [] m.input },
    ask_verify (value m.input),
  )

  -- the case stepShow of onEnter
  unfoldable pub enter_show : Model Input → Model Input × Cmd
  enter_show m = if m.backup then (record m { step = quiz }, no_cmd) else (m, close_cmd)

  -- onEnter
  unfoldable pub on_enter : Step → Model Input → Option (Model Input × Cmd)
  on_enter password m = some (enter_password m)
  on_enter show m = some (enter_show m)
  on_enter quiz m = check_quiz_word m
  on_enter done m = check_quiz_word m

  abbrev pub to_input : Event → Model Input → Option (Model Input × Cmd)
  to_input e m = some (record m { input = change e m.input }, no_cmd)

  -- Update, by the step and the message
  unfoldable pub update_at : Step → Msg Event → Model Input → Option (Model Input × Cmd)
  unfolding on_enter
  update_at step (revealed r) m = some (on_revealed r m, no_cmd)
  update_at step (other_msg e) m = to_input e m
  update_at done esc m = some (m, no_cmd)
  update_at done enter m = some (m, no_cmd)
  update_at done (key e) m = some (m, no_cmd)
  update_at step esc m = some (m, close_cmd)
  update_at step enter m = on_enter step m
  update_at show (key e) m = some (m, no_cmd)
  update_at step (key e) m = to_input e m

  -- Update
  unfoldable pub update : Msg Event → Model Input → Option (Model Input × Cmd)
  unfolding update_at
  update msg m = update_at m.step msg m

  abbrev pub and_then :
      (Model Input → Option (Model Input × List Cmd))
      → Option (Model Input × Cmd)
      → Option (Model Input × List Cmd)
  and_then rest none = none
  and_then rest (some (m, c)) = elim (rest m) [ none ↦ none | some (n, cs) ↦ some (n, c ∷ cs) ]

  -- the overlay over a sequence of messages
  unfoldable pub run : List (Msg Event) → Model Input → Option (Model Input × List Cmd)
  unfolding update
  run [] m = some (m, [])
  run (msg ∷ msgs) m = and_then (run msgs) (update msg m)
