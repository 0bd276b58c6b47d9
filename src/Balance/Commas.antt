-- ===== src/Balance/Commas.antt =====
-- insertCommas: the commas are all it adds.
use lazyswap.Prelude.{
  null, ◌*◌, ◌-◌, ◌/◌, sym, leb→le, false, append-nil, subst, ℕ, zero, suc, ◌%◌, ◌≤◌, ◌≡◌, refl,
  ◌∙◌, ap, true, [], ◌∷◌, ◌++◌, arith, ltb, leb, length, take, drop, all, Bool-cases, inl, inr,
  take-append-drop, all-take, all-drop, length-drop,
}
use lazyswap.Prelude.Text.{Bytes}
use lazyswap.Balance.{is_digit, comma_groups, insert_commas, remove_byte}

remove_byte-digits : (s : Bytes) → all is_digit s ≡ true → remove_byte b',' s ≡ s
unfolding remove_byte
remove_byte-digits [] h = refl
remove_byte-digits (c ∷ s) h = ground (arith, remove_byte-digits s)

remove_byte-append :
    (s t : Bytes) → remove_byte b',' (s ++ t) ≡ remove_byte b',' s ++ remove_byte b',' t
unfolding remove_byte
remove_byte-append [] t = refl
remove_byte-append (c ∷ s) t = ground (arith, remove_byte-append s t)

-- A run of digits, a comma, and a text: the run stays.
remove_after_comma :
    (s t : Bytes)
    → all is_digit s ≡ true
    → remove_byte b',' (s ++ b',' ∷ t) ≡ s ++ remove_byte b',' t
remove_after_comma s t h =
    remove_byte-append s (b',' ∷ t)
    ∙ ap (λ u. u ++ remove_byte b',' (b',' ∷ t)) (remove_byte-digits s h)
    ∙ ap (λ u. s ++ u) (dropped t)
  where
    dropped : (u : Bytes) → remove_byte b',' (b',' ∷ u) ≡ remove_byte b',' u
    dropped u = unfold remove_byte in refl

remove_byte-comma_groups :
    (k : ℕ) (s : Bytes)
    → length s ≤ k
    → all is_digit s ≡ true
    → remove_byte b',' (comma_groups k s) ≡ s
unfolding comma_groups
remove_byte-comma_groups zero [] l h = unfold remove_byte in refl
remove_byte-comma_groups zero (c ∷ s) l h = absurd (omega arith)
remove_byte-comma_groups (suc k) s l h = elim (Bool-cases (leb (length s) 3)) [
  | inl e ↦ rw e (remove_byte-digits s h)
  | inr e ↦ rw e (
      remove_after_comma (take 3 s) (comma_groups k (drop 3 s)) (all-take is_digit 3 s h)
      ∙ ap (λ t. take 3 s ++ t)
          (remove_byte-comma_groups k (drop 3 s) (left (ground arith)) (all-drop is_digit 3 s h))
      ∙ take-append-drop 3 s)
]
  where
    left : 3 ≤ length s → length (drop 3 s) ≤ k
    left m = omega (arith, length-drop 3 s)

-- groups of three digits, each behind a comma
abbrev pub Threes : Bytes → Type 0
Threes [] = Unit
Threes (comma ∷ a ∷ b ∷ c ∷ s) = (comma ≡ b',') × (all is_digit (a ∷ b ∷ c ∷ []) ≡ true) × Threes s
Threes _ = ⊥

-- A number with thousands separators: at most three digits, but one at least where groups follow,
-- and then the groups.
pub record IsGrouped (t : Bytes) : Type 0 where
  pub first : Bytes
  pub groups : Bytes
  pub split : t ≡ first ++ groups
  pub short : length first ≤ 3
  pub some_digit : null groups ≡ false → 1 ≤ length first
  pub digits : all is_digit first ≡ true
  pub threes : Threes groups

group_more :
    (s t : Bytes) → length s ≡ 3 → all is_digit s ≡ true → Threes t → Threes (b',' ∷ s ++ t)
group_more (a ∷ b ∷ c ∷ []) t l h rest = (refl, h, rest)
group_more [] t l h rest = absurd (omega (arith, l))
group_more (a ∷ []) t l h rest = absurd (omega (arith, l))
group_more (a ∷ b ∷ []) t l h rest = absurd (omega (arith, l))
group_more (a ∷ b ∷ c ∷ d ∷ s) t l h rest = absurd (omega (arith, l))

length-take : (n : ℕ) (s : Bytes) → n ≤ length s → length (take n s) ≡ n
length-take zero s h = refl
length-take (suc n) [] h = absurd (omega (arith, h))
length-take (suc n) (c ∷ s) h = omega (arith, length-take n s (omega (arith, h)))

comma_groups-Threes :
    (k m : ℕ) (s : Bytes)
    → length s ≤ k
    → length s ≡ 3 * suc m
    → all is_digit s ≡ true
    → Threes (b',' ∷ comma_groups k s)
unfolding comma_groups
comma_groups-Threes zero m s l e h = absurd (omega (arith, l, e))
comma_groups-Threes (suc k) zero s l e h =
    rw (short e) (subst (λ t. Threes (b',' ∷ t)) (append-nil s) (group_more s [] e h tt))
  where
    short : length s ≡ 3 → leb (length s) 3 ≡ true
    short e = ground (arith, e)
comma_groups-Threes (suc k) (suc m) s l e h = rw (long e) (
    group_more (take 3 s) (b',' ∷ comma_groups k (drop 3 s)) (length-take 3 s (omega (arith, e)))
      (all-take is_digit 3 s h)
      (comma_groups-Threes k m (drop 3 s) (omega (arith, length-drop 3 s, l, e))
        (omega (arith, length-drop 3 s, e)) (all-drop is_digit 3 s h)))
  where
    long : length s ≡ 3 * suc (suc m) → leb (length s) 3 ≡ false
    long e = ground (arith, e)

one_group : (s : Bytes) → length s ≤ 3 → all is_digit s ≡ true → IsGrouped s
one_group s l h = record {
  first = s;
  groups = [];
  split = sym (append-nil s);
  short = l;
  some_digit = λ e. cc;
  digits = h;
  threes = tt;
}

comma_groups-IsGrouped :
    (k m : ℕ) (s : Bytes)
    → length s ≤ k
    → length s ≡ 3 * suc m
    → all is_digit s ≡ true
    → IsGrouped (comma_groups k s)
unfolding comma_groups
comma_groups-IsGrouped zero m s l e h = absurd (omega (arith, l, e))
comma_groups-IsGrouped (suc k) m s l e h = elim (Bool-cases (leb (length s) 3)) [
  | inl few ↦ rw few (one_group s (leb→le (length s) 3 few) h)
  | inr many ↦ rw many (record {
    first = take 3 s;
    groups = b',' ∷ comma_groups k (drop 3 s);
    split = refl;
    short = omega (arith, length-take 3 s (ground (arith, many)));
    some_digit = λ _. omega (arith, length-take 3 s (ground (arith, many)));
    digits = all-take is_digit 3 s h;
    threes =
        comma_groups-Threes k (m - 1) (drop 3 s) (ground (arith, length-drop 3 s, l, many))
          (ground (arith, length-drop 3 s, e, many)) (all-drop is_digit 3 s h);
  })
]

-- The thousands separators that insertCommas puts into a text of digits come out again: taking
-- every comma away, as ParseUSD does, gives the text back.
pub remove_byte-insert_commas :
    (s : Bytes) → all is_digit s ≡ true → remove_byte b',' (insert_commas s) ≡ s
unfolding insert_commas
remove_byte-insert_commas s h = elim (Bool-cases (leb (length s) 3)) [
  | inl e ↦ rw e (remove_byte-digits s h)
  | inr e ↦ rw e (elim (Bool-cases (ltb 0 (length s % 3))) [
    | inl p ↦ rw p (
        remove_after_comma (take (length s % 3) s) (comma_groups (length s) (drop (length s % 3) s))
          (all-take is_digit (length s % 3) s h)
        ∙ ap (λ t. take (length s % 3) s ++ t)
            (remove_byte-comma_groups (length s) (drop (length s % 3) s)
              (omega (arith, length-drop (length s % 3) s)) (all-drop is_digit (length s % 3) s h))
        ∙ take-append-drop (length s % 3) s)
    | inr p ↦ rw p (remove_byte-comma_groups (length s) s (omega arith) h)
  ])
]

insert_commas-groups : (s : Bytes) → all is_digit s ≡ true → IsGrouped (insert_commas s)
unfolding insert_commas
insert_commas-groups s h = elim (Bool-cases (leb (length s) 3)) [
  | inl e ↦ rw e (one_group s (leb→le (length s) 3 e) h)
  | inr e ↦ rw e (elim (Bool-cases (ltb 0 (length s % 3))) [
    | inl p ↦ rw p (record {
      first = take (length s % 3) s;
      groups = b',' ∷ comma_groups (length s) (drop (length s % 3) s);
      split = refl;
      short = ground (arith, length-take (length s % 3) s (fits e));
      some_digit = λ _. ground (arith, p, length-take (length s % 3) s (fits e));
      digits = all-take is_digit (length s % 3) s h;
      threes =
          comma_groups-Threes (length s) (length s / 3 - 1) (drop (length s % 3) s)
            (omega (arith, length-drop (length s % 3) s))
            (ground (arith, e, length-drop (length s % 3) s))
            (all-drop is_digit (length s % 3) s h);
    })
    | inr p ↦ rw p (
        comma_groups-IsGrouped (length s) (length s / 3 - 1) s (omega arith) (ground (arith, e, p))
          h)
  ])
]
  where
    fits : leb (length s) 3 ≡ false → length s % 3 ≤ length s
    fits e = ground (arith, e)

-- insertCommas of a text of digits writes at most three digits, and then groups of three digits,
-- each behind a comma; without its commas, which ParseUSD takes away, the result is the text again.
pub insert_commas-IsGrouped :
    (s : Bytes)
    → all is_digit s ≡ true
    → IsGrouped (insert_commas s) × (remove_byte b',' (insert_commas s) ≡ s)
insert_commas-IsGrouped s h = (insert_commas-groups s h, remove_byte-insert_commas s h)
