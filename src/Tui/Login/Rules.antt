-- ===== src/Tui/Login/Rules.antt =====
-- The rules for a new password.
use lazyswap.Prelude.{
  Bool, Bool-cases, List, [], arith, false, inl, inr, length, ltb, true, ℕ, ◌||◌, ◌∷◌, ◌≡◌, ◌≤◌,
}
use lazyswap.Prelude.Text.{Bytes, runes}
use lazyswap.Tui.Login.{Found, Unicode, missing, nothing_found, notice, scan, validate_password}

abbrev pub any : (ℕ → Bool) → List ℕ → Bool
any p [] = false
any p (c ∷ s) = p c || any p s

-- at least eight bytes of UTF-8, with a lower-case letter, an upper-case letter and a digit of Unicode
pub record IsStrong (u : Unicode) (pw : Bytes) : Type 0 where
  pub long : 8 ≤ length pw
  pub lower : any u.is_lower (runes 0 pw) ≡ true
  pub upper : any u.is_upper (runes 0 pw) ≡ true
  pub digit : any u.is_digit (runes 0 pw) ≡ true

-- What the loop has found behind a text was there.
record Scanned (u : Unicode) (f : Found) (s : List ℕ) : Type 0 where
  lower : (scan u f s).has_lower ≡ true → (f.has_lower || any u.is_lower s) ≡ true
  upper : (scan u f s).has_upper ≡ true → (f.has_upper || any u.is_upper s) ≡ true
  digit : (scan u f s).has_digit ≡ true → (f.has_digit || any u.is_digit s) ≡ true

-- What one character adds.
record Noticed (u : Unicode) (c : ℕ) (f : Found) : Type 0 where
  lower : (notice u c f).has_lower ≡ true → (f.has_lower || u.is_lower c) ≡ true
  upper : (notice u c f).has_upper ≡ true → (f.has_upper || u.is_upper c) ≡ true
  digit : (notice u c f).has_digit ≡ true → (f.has_digit || u.is_digit c) ≡ true

noticed : (u : Unicode) (c : ℕ) (f : Found) → Noticed u c f
unfolding notice
noticed u c f = record {
  lower = λ h. ground (arith, h);
  upper = λ h. ground (arith, h);
  digit = λ h. ground (arith, h);
}

through :
    (was now is later : Bool)
    → (now ≡ true → (was || is) ≡ true)
    → (now || later) ≡ true
    → (was || (is || later)) ≡ true
through was now is later h k = ground (arith, h, k)

or_false : (a : Bool) → a ≡ true → (a || false) ≡ true
or_false a h = ground (arith, h)

scanned : (u : Unicode) (s : List ℕ) (f : Found) → Scanned u f s
unfolding scan
scanned u [] f = record {
  lower = or_false f.has_lower;
  upper = or_false f.has_upper;
  digit = or_false f.has_digit;
}
scanned u (c ∷ s) f =
    let next = notice u c f in
    let now = noticed u c f in
    let rest = scanned u s next in
    record {
      lower = λ h. through f.has_lower next.has_lower (u.is_lower c) _ now.lower (rest.lower h);
      upper = λ h. through f.has_upper next.has_upper (u.is_upper c) _ now.upper (rest.upper h);
      digit = λ h. through f.has_digit next.has_digit (u.is_digit c) _ now.digit (rest.digit h);
    }

complete :
    (f : Found)
    → missing f ≡ []
    → (f.has_lower ≡ true) × (f.has_upper ≡ true) × (f.has_digit ≡ true)
unfolding missing
complete f h = ground arith

-- A password that ValidatePassword has no complaint about keeps its four rules.
pub validate_password-IsStrong :
    (u : Unicode) (pw : Bytes) → validate_password u pw ≡ [] → IsStrong u pw
unfolding validate_password
validate_password-IsStrong u pw h = elim (Bool-cases (ltb (length pw) 8)) [
  | inl e ↦ absurd (ground (arith, h, e))
  | inr e ↦
      let seen = scanned u (runes 0 pw) nothing_found in
      let (a, b, c) = complete (scan u nothing_found (runes 0 pw)) (rw e at h) in
      record {
        long = ground (arith, e);
        lower = seen.lower a;
        upper = seen.upper b;
        digit = seen.digit c;
      }
]
