-- ===== src/Tui/Seed/Runs.antt =====
-- The backup of a phrase: no sequence of keys confirms it without its two words.
use mathlib.Core.List.{Memᴰ}
use lazyswap.Prelude.{
  ==_iff, Bool-cases, List, Option, [], ap, arith, inl, inr, length, none, refl, some, subst, sym,
  ℕ, ◌++◌, ◌+◌, ◌<◌, ◌==◌, ◌∙◌, ◌∷◌, ◌≡◌, ◌≤◌, ◌⊎◌,
}
use lazyswap.Prelude.Text.{Bytes, fields}
use lazyswap.Tui.Seed.{
  Cmd, Model, Msg, Step, TextInput, and_then, ask_verify, close_cmd, confirmed, done, get_elem?,
  new_backup, no_cmd, password, quiz, run, show, update,
}
use lazyswap.Tui.Seed.Steps.{
  AllKeys, BacksUp, Stage, Steps, confirmations, is_done, question, steps, submitted,
}

Memᴰ-after {ℓ} : {A : Type ℓ} {x : A} (xs : List A) {ys : List A} → Memᴰ x ys → Memᴰ x (xs ++ ys)
Memᴰ-after [] at = at
Memᴰ-after (y ∷ xs) at = Memᴰ.tail (Memᴰ-after xs at)

-- A list of at most one element, all of whose elements are `x`.
at_most_one :
    {A : Type 0} (x : A) (xs : List A) (n : ℕ)
    → length xs + 0 ≡ n
    → n ≤ 1
    → ((y : A) → Memᴰ y xs → y ≡ x)
    → (xs ≡ []) ⊎ ((xs ≡ x ∷ []) × (n ≡ 1))
at_most_one x [] n e few h = inl refl
at_most_one x (y ∷ []) n e few h = inr (ap (λ z. z ∷ []) (h y (Memᴰ.head refl)), omega (arith, e))
at_most_one x (y ∷ z ∷ xs) n e few h = absurd (omega (arith, e, few))

module _ (ti : TextInput) where
  open ti use {Input, Event}

  abbrev rest_of : (Model Input → List Bytes) → Option (Model Input × Cmd) → List Bytes
  rest_of rest none = []
  rest_of rest (some (n, c)) = rest n

  -- the words that a run submits to the quiz
  unfoldable pub answers : List (Msg Event) → Model Input → List Bytes
  answers [] m = []
  answers (msg ∷ msgs) m = submitted ti m.step msg m ++ rest_of (answers msgs) (update ti msg m)

  module _ (phrase : Bytes) (picks : ℕ × ℕ) (first second : Bytes) where
    -- What a run of keys leads to.
    record Led (msgs : List (Msg Event)) (m n : Model Input) (cs : List Cmd) : Type 0 where
      ran : run ti msgs m ≡ some (n, cs)
      kept : BacksUp ti phrase picks first second n
      counted : length (confirmations cs) + is_done m.step ≡ is_done n.step
      of_phrase : (p : Bytes) → Memᴰ p (confirmations cs) → p ≡ phrase
      answered :
          (i : ℕ)
          → m.asked ≤ i
          → i < n.asked
          → Memᴰ (question ti phrase picks first second i) (answers msgs m)

    led :
        (msgs : List (Msg Event)) (m : Model Input)
        → get_elem? (fields phrase) picks.0 ≡ some first
        → get_elem? (fields phrase) picks.1 ≡ some second
        → AllKeys msgs
        → BacksUp ti phrase picks first second m
        → (n : Model Input) × (cs : List Cmd) × Led msgs m n cs
    unfolding run answers
    led [] m a b k h = (
      m,
      [],
      record {
        ran = refl;
        kept = h;
        counted = omega arith;
        of_phrase = λ p at. elim at [ ];
        answered = λ i low high. absurd (omega (arith, low, high));
      },
    )
    led (msg ∷ msgs) m a b k h =
        let (n, c, s) = steps ti phrase picks first second msg m a b k.0 h in
        let (o, cs, l) = led msgs n a b k.1 s.kept in
        (
          o,
          c ∷ cs,
          record {
            ran = ap (and_then ti (run ti msgs)) s.taken ∙ rw (and_then, l.ran) refl;
            kept = l.kept;
            counted = omega (arith, counted_more c cs, s.counted, l.counted);
            of_phrase = λ p at. told c cs s.of_phrase l.of_phrase p at;
            answered = λ i low high.
                subst
                  (λ r.
                    Memᴰ (question ti phrase picks first second i)
                      (submitted ti m.step msg m ++ rest_of (answers msgs) r))
                  (sym s.taken) (asked_more msg m n c s i low (λ more. l.answered i more high));
          },
        )
      where
        counted_more :
            (c : Cmd) (cs : List Cmd)
            → length (confirmations (c ∷ cs))
              ≡ length (confirmations (c ∷ [])) + length (confirmations cs)
        counted_more (confirmed p) cs = omega arith
        counted_more no_cmd cs = omega arith
        counted_more close_cmd cs = omega arith
        counted_more (ask_verify p) cs = omega arith

        told :
            (c : Cmd) (cs : List Cmd)
            → ((p : Bytes) → c ≡ confirmed p → p ≡ phrase)
            → ((p : Bytes) → Memᴰ p (confirmations cs) → p ≡ phrase)
            → (p : Bytes) → Memᴰ p (confirmations (c ∷ cs))
            → p ≡ phrase
        told (confirmed q) cs f g p (Memᴰ.head e) = e ∙ f q refl
        told (confirmed q) cs f g p (Memᴰ.tail at) = g p at
        told no_cmd cs f g p at = g p at
        told close_cmd cs f g p at = g p at
        told (ask_verify q) cs f g p at = g p at

        asked_more :
            (msg : Msg Event) (m n : Model Input) (c : Cmd)
            → Steps ti phrase picks first second msg m n c
            → (i : ℕ) → m.asked ≤ i
            → (n.asked ≤ i → Memᴰ (question ti phrase picks first second i) (answers msgs n))
            → Memᴰ
                (question ti phrase picks first second i)
                (submitted ti m.step msg m ++ answers msgs n)
        asked_more msg m n c s i low later = elim s.answered [
          | inl same ↦ Memᴰ-after (submitted ti m.step msg m) (later (omega (arith, low, same)))
          | inr (next, sent) ↦ elim (Bool-cases (m.asked == i)) [
            | inl now ↦ rw sent (
                Memᴰ.head
                  (ap (question ti phrase picks first second) (sym ((==_iff m.asked i).0 now))))
            | inr other ↦
                Memᴰ-after (submitted ti m.step msg m) (later (ground (arith, low, next, other)))
          ]
        ]

  -- No sequence of keys panics or confirms more than once. A confirmation carries the phrase that
  -- the overlay was opened for, and comes only where both words that the quiz asks for were
  -- submitted to it, in lower case and without spaces around them.
  pub new_backup-confirmed :
      (phrase : Bytes) (picks : ℕ × ℕ) (first second : Bytes) (msgs : List (Msg Event))
      → get_elem? (fields phrase) picks.0 ≡ some first
      → get_elem? (fields phrase) picks.1 ≡ some second
      → AllKeys msgs
      → (n : Model Input) × (cs : List Cmd) × (run ti msgs (new_backup ti phrase picks)
          ≡ some (n, cs))
        × ((confirmations cs ≡ [])
            ⊎ ((confirmations cs ≡ phrase ∷ [])
                × (n.step ≡ done)
                × Memᴰ first (answers msgs (new_backup ti phrase picks))
                × Memᴰ second (answers msgs (new_backup ti phrase picks))))
  unfolding new_backup
  new_backup-confirmed phrase picks first second msgs a b k =
      let start = new_backup ti phrase picks in
      let (n, cs, l) = led phrase picks first second msgs start a b k opened in
      (n, cs, l.ran, concluded n cs l)
    where
      opened : BacksUp ti phrase picks first second (new_backup ti phrase picks)
      opened = record {
        in_backup = refl;
        same_phrase = refl;
        same_words = refl;
        same_picks = refl;
        stage = refl;
      }

      finished : (s : Step) (asked : ℕ) → Stage s asked → is_done s ≡ 1 → (s ≡ done) × (asked ≡ 2)
      finished password asked st e = absurd st
      finished show asked st e = absurd (omega (arith, e))
      finished quiz asked st e = absurd (omega (arith, e))
      finished done asked st e = (refl, st)

      one_at_most : (s : Step) → is_done s ≤ 1
      one_at_most password = omega arith
      one_at_most show = omega arith
      one_at_most quiz = omega arith
      one_at_most done = omega arith

      concluded :
          (n : Model Input) (cs : List Cmd)
          → Led phrase picks first second msgs (new_backup ti phrase picks) n cs
          → (confirmations cs ≡ [])
            ⊎ ((confirmations cs ≡ phrase ∷ [])
                × (n.step ≡ done)
                × Memᴰ first (answers msgs (new_backup ti phrase picks))
                × Memᴰ second (answers msgs (new_backup ti phrase picks)))
      concluded n cs l =
          elim (at_most_one phrase (confirmations cs) (is_done n.step) l.counted
            (one_at_most n.step) l.of_phrase) [
              | inl none_sent ↦ inl none_sent
              | inr (one, reached) ↦
                  let (at_end, both) = finished n.step n.asked l.kept.stage reached in
                  inr (
                    one,
                    at_end,
                    l.answered 0 (omega arith) (omega (arith, both)),
                    l.answered 1 (omega arith) (omega (arith, both)),
                  )
            ]
