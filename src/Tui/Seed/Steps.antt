-- ===== src/Tui/Seed/Steps.antt =====
-- One key in the backup of a phrase.
use lazyswap.Prelude.{
  Bool-cases, List, Option, [], ap, arith, inl, inr, length, ltb, ltb→lt, none, refl, some, subst,
  suc, sym, true, zero, ℕ, ◌+◌, ◌<◌, ◌∙◌, ◌∷◌, ◌≡◌, ◌⊎◌,
}
use lazyswap.Prelude.Text.{Bytes, fields, text_eq, text_eq_iff}
use lazyswap.Tui.Seed.{
  Cmd, Model, Msg, Step, TextInput, check_quiz_word, check_word, close_cmd, confirmed, done, enter,
  enter_show, esc, get_elem?, key, no_cmd, on_enter, other_msg, password, pick_at, quiz, revealed,
  show, typed, update, update_at, wanted, word_at, wrong_word,
}

-- what the quiz has come to at each step
abbrev pub Stage : Step → ℕ → Type 0
Stage password asked = ⊥
Stage show asked = asked ≡ 0
Stage quiz asked = asked < 2
Stage done asked = asked ≡ 2

abbrev pub is_done : Step → ℕ
is_done done = 1
is_done _ = 0

-- A message that no check of a password sends.
abbrev pub IsKey : {Event : Type 0} → Msg Event → Type 0
IsKey (revealed r) = ⊥
IsKey _ = Unit

abbrev pub AllKeys : {Event : Type 0} → List (Msg Event) → Type 0
AllKeys [] = Unit
AllKeys (msg ∷ msgs) = IsKey msg × AllKeys msgs

abbrev pub confirmations : List Cmd → List Bytes
confirmations [] = []
confirmations (confirmed p ∷ cs) = p ∷ confirmations cs
confirmations (_ ∷ cs) = confirmations cs

module _ (ti : TextInput) where
  open ti use {Input, Event}

  -- the word that a message submits to the quiz
  abbrev pub submitted : Step → Msg Event → Model Input → List Bytes
  submitted quiz enter m = typed ti m ∷ []
  submitted _ _ m = []

  module _ (phrase : Bytes) (picks : ℕ × ℕ) (first second : Bytes) where
    -- An overlay that backs up the phrase.
    pub record BacksUp (m : Model Input) : Type 0 where
      pub in_backup : m.backup ≡ true
      pub same_phrase : m.phrase ≡ phrase
      pub same_words : m.words ≡ fields phrase
      pub same_picks : m.picks ≡ picks
      pub stage : Stage m.step m.asked

    -- the word of each question
    abbrev pub question : ℕ → Bytes
    question zero = first
    question (suc i) = second

    -- One message, from `m` to `n`.
    pub record Steps (msg : Msg Event) (m n : Model Input) (c : Cmd) : Type 0 where
      pub taken : update ti msg m ≡ some (n, c)
      pub kept : BacksUp n
      pub counted : length (confirmations (c ∷ [])) + is_done m.step ≡ is_done n.step
      pub of_phrase : (p : Bytes) → c ≡ confirmed p → p ≡ phrase
      pub answered :
          (n.asked ≡ m.asked)
          ⊎ ((n.asked ≡ m.asked + 1) × (submitted m.step msg m ≡ question m.asked ∷ []))

    -- a message that changes at most the text of the input
    still :
        (msg : Msg Event) (m : Model Input) (x : Input) (c : Cmd)
        → update ti msg m ≡ some (record m { input = x }, c)
        → confirmations (c ∷ []) ≡ []
        → BacksUp m
        → (n : Model Input) × (c : Cmd) × Steps msg m n c
    still msg m x c taken quiet h = (
      record m { input = x },
      c,
      record {
        taken = taken;
        kept = record {
          in_backup = h.in_backup;
          same_phrase = h.same_phrase;
          same_words = h.same_words;
          same_picks = h.same_picks;
          stage = h.stage;
        };
        counted = rw quiet (omega arith);
        of_phrase = λ p e. absurd (loud p (subst (λ d. confirmations (d ∷ []) ≡ []) e quiet));
        answered = inl refl;
      },
    )
      where
        loud : (p : Bytes) → confirmations (confirmed p ∷ []) ≡ [] → ⊥
        loud p e = cc

    -- enter on the phrase of a backup
    shown :
        (m : Model Input)
        → m.step ≡ show
        → BacksUp m
        → (n : Model Input) × (c : Cmd) × Steps enter m n c
    unfolding update update_at on_enter enter_show
    shown m e h = (
      record m { step = quiz },
      no_cmd,
      record {
        taken = rw e (rw h.in_backup refl);
        kept = record {
          in_backup = h.in_backup;
          same_phrase = h.same_phrase;
          same_words = h.same_words;
          same_picks = h.same_picks;
          stage = omega (arith, subst (λ s. Stage s m.asked) e h.stage);
        };
        counted = rw e refl;
        of_phrase = λ p same. cc;
        answered = inl refl;
      },
    )

    wanted-question :
        (m : Model Input)
        → get_elem? (fields phrase) picks.0 ≡ some first
        → get_elem? (fields phrase) picks.1 ≡ some second
        → m.asked < 2
        → BacksUp m
        → (i : ℕ) × (wanted ti m ≡ some (i, question m.asked))
    unfolding wanted pick_at
    wanted-question m a b few h = asked_for m.asked few
      where
        asked_for :
            (n : ℕ)
            → n < 2
            → (i : ℕ) × (word_at ti m.words (pick_at m.picks n) ≡ some (i, question n))
        asked_for zero few = (picks.0, rw h.same_picks (rw h.same_words (rw (word_at, a) refl)))
        asked_for (suc zero) few =
            (picks.1, rw h.same_picks (rw h.same_words (rw (word_at, b) refl)))
        asked_for (suc (suc n)) few = absurd (omega (arith, few))

    -- enter in the quiz
    quizzed :
        (m : Model Input)
        → get_elem? (fields phrase) picks.0 ≡ some first
        → get_elem? (fields phrase) picks.1 ≡ some second
        → m.step ≡ quiz
        → BacksUp m
        → (n : Model Input) × (c : Cmd) × Steps enter m n c
    unfolding update update_at on_enter check_quiz_word check_word
    quizzed m a b e h = elim (Bool-cases (text_eq (typed ti m) (question m.asked))) [
      | inr wrong ↦ (
        record cleared { err_msg = wrong_word ti position },
        no_cmd,
        record {
          taken = entered ∙ ap some (rw wrong refl);
          kept = record {
            in_backup = h.in_backup;
            same_phrase = h.same_phrase;
            same_words = h.same_words;
            same_picks = h.same_picks;
            stage = h.stage;
          };
          counted = omega arith;
          of_phrase = λ p same. cc;
          answered = inl refl;
        },
      )
      | inl right ↦ elim (Bool-cases (ltb (m.asked + 1) 2)) [
        | inl more ↦ (
          record cleared { err_msg = []; asked = m.asked + 1 },
          no_cmd,
          record {
            taken = entered ∙ ap some (rw right (rw more refl));
            kept = record {
              in_backup = h.in_backup;
              same_phrase = h.same_phrase;
              same_words = h.same_words;
              same_picks = h.same_picks;
              stage = rw e (ltb→lt (m.asked + 1) 2 more);
            };
            counted = omega arith;
            of_phrase = λ p same. cc;
            answered = inr (refl, submits right);
          },
        )
        | inr last ↦ (
          record cleared { err_msg = []; asked = m.asked + 1; step = done },
          confirmed m.phrase,
          record {
            taken = entered ∙ ap some (rw right (rw last refl));
            kept = record {
              in_backup = h.in_backup;
              same_phrase = h.same_phrase;
              same_words = h.same_words;
              same_picks = h.same_picks;
              stage = ground (arith, few, last);
            };
            counted = rw e refl;
            of_phrase = λ p same. sym (told p same) ∙ h.same_phrase;
            answered = inr (refl, submits right);
          },
        )
      ]
    ]
      where
        few : m.asked < 2
        few = subst (λ s. Stage s m.asked) e h.stage

        position : ℕ
        position = (wanted-question m a b few h).0

        found : wanted ti m ≡ some (position, question m.asked)
        found = (wanted-question m a b few h).1

        entered : update ti enter m ≡ some (check_word ti (position, question m.asked) m)
        entered =
            subst
              (λ s. update_at ti s enter m ≡ some (check_word ti (position, question m.asked) m))
              (sym e)
              (ap
                (λ (o : Option (ℕ × Bytes)). elim o [
                  | none ↦ none
                  | some want ↦ some (check_word ti want m)
                ])
                found)

        cleared : Model Input
        cleared = record m { input = ti.set_value [] m.input }

        submits :
            text_eq (typed ti m) (question m.asked) ≡ true
            → submitted m.step enter m ≡ question m.asked ∷ []
        submits right =
            rw e (ap (λ w. w ∷ []) ((text_eq_iff (typed ti m) (question m.asked)).0 right))

        told : (p : Bytes) → confirmed m.phrase ≡ confirmed p → m.phrase ≡ p
        told p same = cc

    pub steps :
        (msg : Msg Event) (m : Model Input)
        → get_elem? (fields phrase) picks.0 ≡ some first
        → get_elem? (fields phrase) picks.1 ≡ some second
        → IsKey msg
        → BacksUp m
        → (n : Model Input) × (c : Cmd) × Steps msg m n c
    unfolding update update_at
    steps msg m a b k h = by_step m.step refl msg k
      where
        started : {X : Type 0} → m.step ≡ password → X
        started e = absurd (subst (λ s. Stage s m.asked) e h.stage)

        by_step :
            (s : Step)
            → m.step ≡ s
            → (msg : Msg Event) → IsKey msg
            → (n : Model Input) × (c : Cmd) × Steps msg m n c
        by_step s e (revealed r) k = absurd k
        by_step s e (other_msg x) k = still (other_msg x) m (ti.change x m.input) no_cmd refl refl h
        by_step password e msg k = started e
        by_step show e esc k = still esc m m.input close_cmd (rw e refl) refl h
        by_step show e enter k = shown m e h
        by_step show e (key x) k = still (key x) m m.input no_cmd (rw e refl) refl h
        by_step quiz e esc k = still esc m m.input close_cmd (rw e refl) refl h
        by_step quiz e enter k = quizzed m a b e h
        by_step quiz e (key x) k = still (key x) m (ti.change x m.input) no_cmd (rw e refl) refl h
        by_step done e esc k = still esc m m.input no_cmd (rw e refl) refl h
        by_step done e enter k = still enter m m.input no_cmd (rw e refl) refl h
        by_step done e (key x) k = still (key x) m m.input no_cmd (rw e refl) refl h
