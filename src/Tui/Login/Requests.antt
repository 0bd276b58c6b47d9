-- ===== src/Tui/Login/Requests.antt =====
-- What the login screen asks for.
use mathlib.Core.List.{Memᴰ}
use lazyswap.Prelude.{
  Bool, List, [], ap, arith, false, not, null, refl, subst, suc, sym, true, and_split,
  if◌then◌else◌, ◌&&◌, ℕ, ◌+◌, ◌∙◌, ◌∷◌, ◌≡◌, ◌≤◌,
}
use lazyswap.Prelude.Text.{Bytes, text_eq, text_eq_iff}
use lazyswap.Tui.Login.{
  Cmd, Model, Msg, Unicode, derive_and_init, derive_and_verify, new, reset_confirm, run, submit,
  submit_confirm, submit_first, to_input, update, validate_password,
}
use lazyswap.Tui.Login.Rules.{IsStrong, validate_password-IsStrong}
use lazyswap.Tui.Seed.{TextInput}

-- what a command may ask for on a first access, and on a later one
abbrev pub Allowed : Unicode → (is_first_access : Bool) → Cmd → Type 0
Allowed u first (derive_and_init pw) = (first ≡ true) × IsStrong u pw
Allowed u first (derive_and_verify pw) = first ≡ false
Allowed u first _ = Unit

-- the derivations of a key among the commands
abbrev pub derivations : List Cmd → ℕ
derivations [] = 0
derivations (derive_and_init pw ∷ cs) = suc (derivations cs)
derivations (derive_and_verify pw ∷ cs) = suc (derivations cs)
derivations (_ ∷ cs) = derivations cs

abbrev pub failures : {Event : Type 0} → List (Msg Event) → ℕ
failures [] = 0
failures (Msg.login_err e ∷ msgs) = suc (failures msgs)
failures (_ ∷ msgs) = failures msgs

abbrev idle : Bool → ℕ
idle true = 0
idle false = 1

null_eq : (s : Bytes) → null s ≡ true → s ≡ []
null_eq [] h = refl
null_eq (c ∷ s) h = cc

-- A test whose branches both have a property.
by_if {ℓ κ} :
    {A : Type ℓ} (P : A → Type κ) (b : Bool) {x y : A}
    → (b ≡ true → P x)
    → (b ≡ false → P y)
    → P (if b then x else y)
by_if P true f g = f refl
by_if P false f g = g refl

module _ (u : Unicode) (ti : TextInput) where
  open ti use {Input, Event}

  -- A password that waits for its confirmation is one that the rules allow.
  abbrev Waits : Model Input → Type 0
  Waits m = m.awaiting_confirm ≡ true → validate_password u m.first_entry ≡ []

  record Steps (m : Model Input) (next : Model Input × Cmd) : Type 0 where
    waits : Waits next.0
    same : next.0.is_first_access ≡ m.is_first_access
    allowed : Allowed u m.is_first_access next.1
    pays : derivations (next.1 ∷ []) + idle next.0.busy ≤ idle m.busy

  stays :
      (m n : Model Input)
      → n.awaiting_confirm ≡ m.awaiting_confirm
      → n.first_entry ≡ m.first_entry
      → Waits m
      → Waits n
  stays m n a b h = λ w. ap (validate_password u) b ∙ h (sym a ∙ w)

  submit_first-Steps :
      (pw : Bytes) (m : Model Input) → m.awaiting_confirm ≡ false → Steps m (submit_first u ti pw m)
  unfolding submit_first
  submit_first-Steps pw m fresh =
      by_if (Steps m) (null (validate_password u pw))
        (λ e. record {
          waits = λ w. null_eq (validate_password u pw) e;
          same = refl;
          allowed = tt;
          pays = omega arith;
        })
        (λ e. record {
          waits = λ w. absurd (ground (arith, fresh, w));
          same = refl;
          allowed = tt;
          pays = omega arith;
        })

  submit_confirm-Steps :
      (pw : Bytes) (m : Model Input)
      → m.busy ≡ false
      → m.is_first_access ≡ true
      → validate_password u m.first_entry ≡ []
      → Steps m (submit_confirm u ti pw m)
  unfolding submit_confirm reset_confirm
  submit_confirm-Steps pw m free first valid =
      by_if (Steps m) (text_eq pw m.first_entry)
        (λ e. record {
          waits = λ w. valid;
          same = refl;
          allowed = (
            first,
            validate_password-IsStrong u pw
                (ap (validate_password u) ((text_eq_iff pw m.first_entry).0 e) ∙ valid),
          );
          pays = rw free (omega arith);
        })
        (λ e. record { waits = λ w. absurd cc; same = refl; allowed = tt; pays = omega arith })

  submit-Steps : (m : Model Input) → m.busy ≡ false → Waits m → Steps m (submit u ti m)
  unfolding submit
  submit-Steps m free w =
      by_if (Steps m) (m.is_first_access && not m.awaiting_confirm)
        (λ h. of_cleared _ (submit_first-Steps (ti.value m.input) cleared (fresh h)))
        (λ h.
          by_if (Steps m) (m.is_first_access && m.awaiting_confirm)
            (λ k.
              let (first, again) = and_split m.is_first_access m.awaiting_confirm k in
              of_cleared _ (submit_confirm-Steps (ti.value m.input) cleared free first (w again)))
            (λ k. record {
              waits = w;
              same = refl;
              allowed = later h k;
              pays = rw free (omega arith);
            }))
    where
      cleared : Model Input
      cleared = record m { input = ti.set_value [] m.input; err_msg = [] }

      of_cleared : (next : Model Input × Cmd) → Steps cleared next → Steps m next
      of_cleared next s = record {
        waits = s.waits;
        same = s.same;
        allowed = s.allowed;
        pays = s.pays;
      }

      fresh : (m.is_first_access && not m.awaiting_confirm) ≡ true → m.awaiting_confirm ≡ false
      fresh h = ground (arith, h)

      later :
          (m.is_first_access && not m.awaiting_confirm) ≡ false
          → (m.is_first_access && m.awaiting_confirm) ≡ false
          → m.is_first_access ≡ false
      later h k = ground (arith, h, k)

  to_input-Steps : (e : Event) (m : Model Input) → Waits m → Steps m (to_input u ti e m)
  unfolding to_input
  to_input-Steps e m w =
      by_if (Steps m) m.busy
        (λ b. record { waits = w; same = refl; allowed = tt; pays = omega arith })
        (λ b. record { waits = w; same = refl; allowed = tt; pays = omega arith })

  -- One message, where `idle` counts the failures that the messages bring.
  record Taken (msg : Msg Event) (m : Model Input) (next : Model Input × Cmd) : Type 0 where
    waits : Waits next.0
    same : next.0.is_first_access ≡ m.is_first_access
    allowed : Allowed u m.is_first_access next.1
    pays : derivations (next.1 ∷ []) + idle next.0.busy ≤ idle m.busy + failures (msg ∷ [])

  taken :
      (msg : Msg Event) (m : Model Input) (next : Model Input × Cmd)
      → Steps m next
      → Taken msg m next
  taken msg m next s = record {
    waits = s.waits;
    same = s.same;
    allowed = s.allowed;
    pays = omega (arith, s.pays);
  }

  idle_at_most : (b : Bool) → idle b ≤ 1
  idle_at_most true = omega arith
  idle_at_most false = omega arith

  update-Taken : (msg : Msg Event) (m : Model Input) → Waits m → Taken msg m (update u ti msg m)
  unfolding update reset_confirm
  update-Taken (Msg.window_size x y) m w = record {
    waits = w;
    same = refl;
    allowed = tt;
    pays = omega arith;
  }
  update-Taken (Msg.internal_success svc) m w = record {
    waits = w;
    same = refl;
    allowed = tt;
    pays = omega arith;
  }
  update-Taken (Msg.login_err e) m w = record {
    waits = w;
    same = refl;
    allowed = tt;
    pays = omega arith;
  }
  update-Taken Msg.enter m w = taken Msg.enter m _ (
      by_if (Steps m) m.busy
        (λ b. record { waits = w; same = refl; allowed = tt; pays = omega arith })
        (λ b. submit-Steps m b w))
  update-Taken (Msg.esc e) m w = taken (Msg.esc e) m _ (
      by_if (Steps m) m.busy
        (λ b. record { waits = w; same = refl; allowed = tt; pays = omega arith })
        (λ b.
          by_if (Steps m) (m.is_first_access && m.awaiting_confirm)
            (λ k. record { waits = λ v. absurd cc; same = refl; allowed = tt; pays = omega arith })
            (λ k. to_input-Steps e m w)))
  update-Taken (Msg.key e) m w = taken (Msg.key e) m _ (to_input-Steps e m w)
  update-Taken (Msg.other_msg e) m w = taken (Msg.other_msg e) m _ (to_input-Steps e m w)

  more_derivations :
      (c : Cmd) (cs : List Cmd) → derivations (c ∷ cs) ≡ derivations (c ∷ []) + derivations cs
  more_derivations c cs = ground arith

  more_failures :
      (msg : Msg Event) (msgs : List (Msg Event))
      → failures (msg ∷ msgs) ≡ failures (msg ∷ []) + failures msgs
  more_failures msg msgs = ground arith

  all_requests :
      (msgs : List (Msg Event)) (m : Model Input)
      → Waits m
      → (c : Cmd) → Memᴰ c (run u ti msgs m)
      → Allowed u m.is_first_access c
  unfolding run
  all_requests [] m w c at = elim at [ ]
  all_requests (msg ∷ msgs) m w c at =
      let t = update-Taken msg m w in
      among c t (all_requests msgs (update u ti msg m).0 t.waits c) at
    where
      among :
          (c : Cmd)
          → Taken msg m (update u ti msg m)
          → (Memᴰ c (run u ti msgs (update u ti msg m).0)
              → Allowed u (update u ti msg m).0.is_first_access c)
          → Memᴰ c (run u ti (msg ∷ msgs) m)
          → Allowed u m.is_first_access c
      among c t rest (Memᴰ.head e) = subst (Allowed u m.is_first_access) (sym e) t.allowed
      among c t rest (Memᴰ.tail at) = subst (λ b. Allowed u b c) t.same (rest at)

  paid :
      (msgs : List (Msg Event)) (m : Model Input)
      → Waits m
      → derivations (run u ti msgs m) ≤ idle m.busy + failures msgs
  unfolding run
  paid [] m w = omega arith
  paid (msg ∷ msgs) m w =
      let (n, c) = update u ti msg m in
      let t = update-Taken msg m w in
      omega (
        arith,
        paid msgs n t.waits,
        t.pays,
        more_failures msg msgs,
        more_derivations c (run u ti msgs n),
      )

  -- Whatever keys and results come in whatever order: a new password is created only on a first
  -- access and only if it keeps the rules, and a later access only verifies one.
  pub run-Allowed :
      (initialised : Bool) (msgs : List (Msg Event)) (c : Cmd)
      → Memᴰ c (run u ti msgs (new u ti initialised))
      → Allowed u (not initialised) c
  unfolding new
  run-Allowed initialised msgs c at = all_requests msgs (new u ti initialised) (λ w. absurd cc) c at

  -- Keys are derived one at a time: the screen starts no more derivations than the first one and
  -- one behind each failure that was reported to it.
  pub run-derivations :
      (initialised : Bool) (msgs : List (Msg Event))
      → derivations (run u ti msgs (new u ti initialised)) ≤ 1 + failures msgs
  unfolding new
  run-derivations initialised msgs = paid msgs (new u ti initialised) (λ w. absurd cc)
