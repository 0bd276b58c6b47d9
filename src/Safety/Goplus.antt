-- ===== src/Safety/Goplus.antt =====
-- The verdict on GoPlus data does not depend on the order of Go's maps.
use lazyswap.Prelude.{
  ◌<◌, ℕ, ◌+◌, ◌≤◌, ◌≡◌, ◌⊎◌, ◌↔◌, ltb, refl, ap, Bool, true, false, List, [], ◌∷◌, ◌++◌, arith,
  if◌then◌else◌, inl, inr,
}
use lazyswap.Prelude.Int.{ℤ}
use lazyswap.Float.{Float64}
use lazyswap.Safety.Report.{high, low, weight, Flag, total_weight, level_of, finalize}
use lazyswap.Safety.Token.{
  GoplusToken, set, Entry, set_flags, high_entries, medium_entries, at_least, MapOrder, tax_bps,
  sell_tax_flags, when, first_flags, last_flags, goplus_flags, score_goplus,
}
use lazyswap.Safety.Score.{
  Reorder, same, keep, exchange, chain, total_weight-Reorder, Reorder-sort_flags,
}

-- A loop over a map visits each entry once, in some order.
pub record IsMapOrder (o : MapOrder) : Type 0 where
  pub visits : (entries : List Entry) → Reorder (o.visit entries) entries

set_flags-Reorder : {xs ys : List Entry} → Reorder xs ys → Reorder (set_flags xs) (set_flags ys)
unfolding set_flags
set_flags-Reorder same = same
set_flags-Reorder (keep {x = (p, f)} r) = kept (set p) (set_flags-Reorder r)
  where
    kept :
        {fs gs : List Flag} (b : Bool)
        → Reorder fs gs
        → Reorder (if b then f ∷ fs else fs) (if b then f ∷ gs else gs)
    kept true s = keep s
    kept false s = s
set_flags-Reorder (exchange {x = (p, f)} {y = (q, g)} {xs}) =
    exchanged (set p) (set q) (set_flags xs)
  where
    exchanged :
        (b c : Bool) (fs : List Flag)
        → Reorder
            (if b then f ∷ (if c then g ∷ fs else fs) else if c then g ∷ fs else fs)
            (if c then g ∷ (if b then f ∷ fs else fs) else if b then f ∷ fs else fs)
    exchanged true true fs = exchange
    exchanged true false fs = same
    exchanged false true fs = same
    exchanged false false fs = same
set_flags-Reorder (chain r s) = chain (set_flags-Reorder r) (set_flags-Reorder s)

total_weight-append :
    (fs gs : List Flag) → total_weight (fs ++ gs) ≡ total_weight fs + total_weight gs
unfolding total_weight
total_weight-append [] gs = omega arith
total_weight-append (f ∷ fs) gs = omega (arith, total_weight-append fs gs)

set_flags-visit :
    (o : MapOrder)
    → IsMapOrder o
    → (entries : List Entry)
    → total_weight (set_flags (o.visit entries)) ≡ total_weight (set_flags entries)
set_flags-visit o m entries = total_weight-Reorder (set_flags-Reorder (m.visits entries))

Reorder-append :
    (fs : List Flag) {xs ys : List Flag} → Reorder xs ys → Reorder (fs ++ xs) (fs ++ ys)
Reorder-append [] r = r
Reorder-append (f ∷ fs) r = keep (Reorder-append fs r)

Reorder-append_right :
    {xs ys : List Flag} (gs : List Flag) → Reorder xs ys → Reorder (xs ++ gs) (ys ++ gs)
Reorder-append_right gs same = same
Reorder-append_right gs (keep r) = keep (Reorder-append_right gs r)
Reorder-append_right gs exchange = exchange
Reorder-append_right gs (chain r s) = chain (Reorder-append_right gs r) (Reorder-append_right gs s)

-- the order in which the literals of the source list their entries
abbrev pub listed : MapOrder
listed = record { visit = λ entries. entries }

-- A sign that selling is blocked or that the owner can take the tokens.
abbrev pub IsCritical : (fl : Float64) → GoplusToken → Type 0
IsCritical fl t =
    (set t.is_honeypot ≡ true)
    ⊎ (set t.cannot_sell_all ≡ true)
    ⊎ (at_least 1000 (tax_bps fl t.sell_tax) ≡ true)
    ⊎ (set t.owner_change_balance ≡ true)
    ⊎ (set t.hidden_owner ≡ true)
    ⊎ (set t.self_destruct ≡ true)

module _ (fl : Float64) (ho mo : MapOrder) (t : GoplusToken) (hv : IsMapOrder ho)
    (mv : IsMapOrder mo) where
  goplus_flags-listed : Reorder (goplus_flags fl ho mo t) (goplus_flags fl listed listed t)
  unfolding goplus_flags
  goplus_flags-listed = Reorder-append (first_flags fl t) (
      chain
        (Reorder-append_right (set_flags (mo.visit (medium_entries t)) ++ last_flags fl t)
          (set_flags-Reorder (hv.visits (high_entries t))))
        (Reorder-append (set_flags (high_entries t)) (
          Reorder-append_right (last_flags fl t)
            (set_flags-Reorder (mv.visits (medium_entries t))))))

  flags-listed : Reorder (score_goplus fl ho mo t).flags (goplus_flags fl listed listed t)
  unfolding score_goplus finalize
  flags-listed = chain (Reorder-sort_flags _) goplus_flags-listed

-- the weight of the flags that a token has
unfoldable pub risk_weight : Float64 → GoplusToken → ℕ
risk_weight fl t = total_weight (goplus_flags fl listed listed t)

module _ (fl : Float64) (ho mo : MapOrder) (t : GoplusToken) where
  -- Whatever order Go visits its two maps in, the score of a token is the weight of its flags, at
  -- most 100, its level is HIGH exactly from weight 40 on and LOW exactly below 15, and its flags are
  -- the same up to their order.
  pub score_goplus-risk_weight :
      IsMapOrder ho
      → IsMapOrder mo
      → ((score_goplus fl ho mo t).score
          ≡ (if ltb 100 (risk_weight fl t) then 100 else risk_weight fl t))
        × (((score_goplus fl ho mo t).level ≡ high) ↔ (40 ≤ risk_weight fl t))
        × (((score_goplus fl ho mo t).level ≡ low) ↔ (risk_weight fl t < 15))
        × Reorder (score_goplus fl ho mo t).flags (goplus_flags fl listed listed t)
  unfolding score_goplus risk_weight finalize level_of
  score_goplus-risk_weight hv mv =
      let r = flags-listed fl ho mo t hv mv in
      let e = total_weight-Reorder r in
      rw e (refl, (ground arith, ground arith), (ground arith, ground arith), r)

weight_left : (fs gs : List Flag) → 40 ≤ total_weight fs → 40 ≤ total_weight (fs ++ gs)
weight_left fs gs h = omega (arith, total_weight-append fs gs)

weight_right : (fs gs : List Flag) → 40 ≤ total_weight gs → 40 ≤ total_weight (fs ++ gs)
weight_right fs gs h = omega (arith, total_weight-append fs gs)

when-weight :
    (fl : Float64) (b : Bool) (f : Flag)
    → b ≡ true
    → f.severity ≡ high
    → 40 ≤ total_weight (when fl b f)
unfolding total_weight
when-weight fl true f h severe = omega (arith, ap weight severe)
when-weight fl false f h severe = cc

sell_tax_flags-weight :
    (fl : Float64) (bps : ℤ) → at_least 1000 bps ≡ true → 40 ≤ total_weight (sell_tax_flags fl bps)
unfolding total_weight
sell_tax_flags-weight fl bps h = rw h (omega arith)

high_entries-weight :
    (t : GoplusToken)
    → (set t.owner_change_balance ≡ true)
      ⊎ (set t.hidden_owner ≡ true)
      ⊎ (set t.self_destruct ≡ true)
    → 40 ≤ total_weight (set_flags (high_entries t))
unfolding set_flags total_weight
high_entries-weight t c = ground arith

critical_weight : (fl : Float64) (t : GoplusToken) → IsCritical fl t → 40 ≤ risk_weight fl t
unfolding risk_weight goplus_flags first_flags
critical_weight fl t (inl h) =
    weight_left _ _
      (weight_left _ _ (weight_left _ _ (weight_left _ _ (when-weight fl _ _ h refl))))
critical_weight fl t (inr (inl h)) =
    weight_left _ _
      (weight_left _ _ (weight_left _ _ (weight_right _ _ (when-weight fl _ _ h refl))))
critical_weight fl t (inr (inr (inl h))) =
    weight_left _ _
      (weight_left _ _ (weight_right _ _ (sell_tax_flags-weight fl (tax_bps fl t.sell_tax) h)))
critical_weight fl t (inr (inr (inr h))) =
    weight_right (first_flags fl t) _ (weight_left _ _ (high_entries-weight t h))

-- A token with a critical sign (a honeypot, a balance that cannot be sold, a sell tax of ten percent
-- or more, an owner who can edit balances, is hidden or can destroy the contract) gets the level
-- HIGH, whatever else is known of it and in whatever order Go visits its maps.
pub score_goplus-critical :
    (fl : Float64) (ho mo : MapOrder) (t : GoplusToken)
    → IsMapOrder ho
    → IsMapOrder mo
    → IsCritical fl t
    → (score_goplus fl ho mo t).level ≡ high
score_goplus-critical fl ho mo t hv mv c =
    (score_goplus-risk_weight fl ho mo t hv mv).1.1 (critical_weight fl t c)
