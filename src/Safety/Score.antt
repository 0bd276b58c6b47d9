-- ===== src/Safety/Score.antt =====
-- Scores, levels and the order of flags.
use lazyswap.Prelude.{
  ℕ, ◌≤◌, ◌<◌, ◌≡◌, refl, ◌∙◌, ap, ◌↔◌, false, List, [], ◌∷◌, arith, ltb, Bool-cases, inl, inr,
  ltb→lt,
}
use mathlib.Core.List.{Memᴰ}
use lazyswap.Safety.Report.{
  low, high, rank, Flag, Report, weight, total_weight, level_of, finalize, insert_flag, sort_flags,
}

-- One list is another in a different order.
pub data Reorder {A : Type 0} : List A → List A → Type 0 where
  same : {xs : List A} → Reorder xs xs
  keep : {x : A} {xs ys : List A} → Reorder xs ys → Reorder (x ∷ xs) (x ∷ ys)
  exchange : {x y : A} {xs : List A} → Reorder (x ∷ y ∷ xs) (y ∷ x ∷ xs)
  chain : {xs ys zs : List A} → Reorder xs ys → Reorder ys zs → Reorder xs zs

pub total_weight-Reorder : {xs ys : List Flag} → Reorder xs ys → total_weight xs ≡ total_weight ys
unfolding total_weight
total_weight-Reorder same = refl
total_weight-Reorder (keep r) = omega (arith, total_weight-Reorder r)
total_weight-Reorder exchange = omega arith
total_weight-Reorder (chain r s) = total_weight-Reorder r ∙ total_weight-Reorder s

Reorder-insert_flag : (f : Flag) (fs : List Flag) → Reorder (insert_flag f fs) (f ∷ fs)
unfolding insert_flag
Reorder-insert_flag f [] = same
Reorder-insert_flag f (g ∷ gs) = elim (Bool-cases (ltb (rank f.severity) (rank g.severity))) [
  | inl e ↦ rw e (chain (keep (Reorder-insert_flag f gs)) exchange)
  | inr e ↦ rw e same
]

pub Reorder-sort_flags : (fs : List Flag) → Reorder (sort_flags fs) fs
unfolding sort_flags
Reorder-sort_flags [] = same
Reorder-sort_flags (f ∷ fs) =
    chain (Reorder-insert_flag f (sort_flags fs)) (keep (Reorder-sort_flags fs))

-- No flag of the list is more severe than `n`.
abbrev pub AllAtMost : ℕ → List Flag → Type 0
AllAtMost n [] = Unit
AllAtMost n (f ∷ fs) = (rank f.severity ≤ n) × AllAtMost n fs

-- Each flag is at least as severe as those behind it.
abbrev pub IsSorted : List Flag → Type 0
IsSorted [] = Unit
IsSorted (f ∷ fs) = AllAtMost (rank f.severity) fs × IsSorted fs

AllAtMost-mono : (m n : ℕ) (fs : List Flag) → m ≤ n → AllAtMost m fs → AllAtMost n fs
AllAtMost-mono m n [] l h = tt
AllAtMost-mono m n (f ∷ fs) l h = (omega (arith, h.0), AllAtMost-mono m n fs l h.1)

AllAtMost-insert_flag :
    (n : ℕ) (f : Flag) (fs : List Flag)
    → rank f.severity ≤ n
    → AllAtMost n fs
    → AllAtMost n (insert_flag f fs)
unfolding insert_flag
AllAtMost-insert_flag n f [] l h = (l, tt)
AllAtMost-insert_flag n f (g ∷ gs) l h =
    elim (Bool-cases (ltb (rank f.severity) (rank g.severity))) [
      | inl e ↦ rw e (h.0, AllAtMost-insert_flag n f gs l h.1)
      | inr e ↦ rw e (l, h)
    ]

insert_flag-IsSorted : (f : Flag) (fs : List Flag) → IsSorted fs → IsSorted (insert_flag f fs)
unfolding insert_flag
insert_flag-IsSorted f [] h = (tt, tt)
insert_flag-IsSorted f (g ∷ gs) h = elim (Bool-cases (ltb (rank f.severity) (rank g.severity))) [
  | inl e ↦ rw e (
    AllAtMost-insert_flag (rank g.severity) f gs
        (omega (arith, ltb→lt (rank f.severity) (rank g.severity) e)) h.0,
    insert_flag-IsSorted f gs h.1,
  )
  | inr e ↦
      let le : rank g.severity ≤ rank f.severity = not_less _ _ e in
      rw e ((le, AllAtMost-mono (rank g.severity) (rank f.severity) gs le h.0), h)
]
  where
    not_less : (a b : ℕ) → ltb a b ≡ false → b ≤ a
    not_less a b k = ground arith

-- Sorting the flags of a report puts the most severe first, and loses and adds none.
pub sort_flags-IsSorted : (fs : List Flag) → IsSorted (sort_flags fs) × Reorder (sort_flags fs) fs
unfolding sort_flags
sort_flags-IsSorted [] = (tt, same)
sort_flags-IsSorted (f ∷ fs) =
    (insert_flag-IsSorted f (sort_flags fs) (sort_flags-IsSorted fs).0, Reorder-sort_flags (f ∷ fs))

weight_of_mem : (f : Flag) (fs : List Flag) → Memᴰ f fs → weight f.severity ≤ total_weight fs
unfolding total_weight
weight_of_mem f [] m = elim m [ ]
weight_of_mem f (g ∷ gs) (Memᴰ.head e) = omega (arith, ap (λ (x : Flag). weight x.severity) e)
weight_of_mem f (g ∷ gs) (Memᴰ.tail m) = omega (arith, weight_of_mem f gs m)

-- A finished report has a score of at most 100, the level HIGH exactly when its flags weigh 40 or
-- more, and the level LOW exactly when they weigh less than 15.
pub finalize_levels :
    (r : Report)
    → ((finalize r).score ≤ 100)
      × (((finalize r).level ≡ high) ↔ (40 ≤ total_weight r.flags))
      × (((finalize r).level ≡ low) ↔ (total_weight r.flags < 15))
unfolding finalize level_of
finalize_levels r = ground arith

-- One HIGH flag is enough for the level HIGH, whatever the other flags are.
pub finalize-high :
    (r : Report) (f : Flag) → Memᴰ f r.flags → f.severity ≡ high → (finalize r).level ≡ high
finalize-high r f m severe =
    (finalize_levels r).1.1 (omega (arith, weight_of_mem f r.flags m, ap weight severe))
