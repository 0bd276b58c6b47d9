-- ===== src/Wallet/Picks.antt =====
-- Which wallet a command uses.
use lazyswap.Prelude.{
  subst, sym, ◌≢◌, Bool-cases, Option-cases, ◌≡◌, refl, inl, inr, ap, true, Option, none, some,
  List, [], ◌∷◌, arith,
}
use mathlib.Core.List.{Memᴰ}
use lazyswap.Prelude.Text.{Bytes, equal_fold}
use lazyswap.Prelude.Result.{ok}
use lazyswap.Wallet.{Wallet, WalletError, found_or, find_by_address, pick}

found_ok : (e : WalletError) (o : Option Wallet) {w : Wallet} → found_or e o ≡ ok w → o ≡ some w
found_ok e none h = cc
found_ok e (some v) h = cc

-- Where a wallet comes from: it has the address that was asked for; else the default one; else it
-- is the only one.
abbrev pub IsChoice : List Wallet → (explicit_addr default_addr : Bytes) → Wallet → Type 0
IsChoice ws (a ∷ explicit) default w = equal_fold w.address (a ∷ explicit) ≡ true
IsChoice ws [] (a ∷ default) w = equal_fold w.address (a ∷ default) ≡ true
IsChoice ws [] [] w = ws ≡ w ∷ []

find_sound :
    (ws : List Wallet) (addr : Bytes) (w : Wallet)
    → find_by_address ws addr ≡ some w
    → Memᴰ w ws × (equal_fold w.address addr ≡ true)
unfolding find_by_address
find_sound [] addr w h = cc
find_sound (v ∷ ws) addr w h = elim (Bool-cases (equal_fold v.address addr)) [
  | inl e ↦
      let same : v ≡ w = ground arith in
      (Memᴰ.head (sym same), subst (λ u. equal_fold u.address addr ≡ true) same e)
  | inr e ↦ let (member, named) = find_sound ws addr w (ground arith) in (Memᴰ.tail member, named)
]

find_complete :
    (ws : List Wallet) (addr : Bytes) (w : Wallet)
    → Memᴰ w ws
    → equal_fold w.address addr ≡ true
    → find_by_address ws addr ≢ none
unfolding find_by_address
find_complete [] addr w m e = elim m [ ]
find_complete (v ∷ ws) addr w (Memᴰ.head same) e =
    let named : equal_fold v.address addr ≡ true =
      subst (λ u. equal_fold u.address addr ≡ true) same e in
    rw named (λ h. cc)
find_complete (v ∷ ws) addr w (Memᴰ.tail m) e = ground (arith, find_complete ws addr w m e)

-- Pick returns a stored wallet, and the one that was asked for: by its explicit address where one
-- is given, else by the default address where one is set, else the only wallet there is.
pub pick-IsChoice :
    (ws : List Wallet) (explicit_addr default_addr : Bytes) (w : Wallet)
    → pick ws explicit_addr default_addr ≡ ok w
    → Memᴰ w ws × IsChoice ws explicit_addr default_addr w
unfolding pick
pick-IsChoice [] explicit default w h = cc
pick-IsChoice (v ∷ ws) (a ∷ explicit) default w h =
    find_sound (v ∷ ws) (a ∷ explicit) w (found_ok _ _ h)
pick-IsChoice (v ∷ ws) [] (a ∷ default) w h = find_sound (v ∷ ws) (a ∷ default) w (found_ok _ _ h)
pick-IsChoice (v ∷ []) [] [] w h =
    let same : v ≡ w = cc in (Memᴰ.head (sym same), ap (λ u. u ∷ []) same)
pick-IsChoice (v ∷ u ∷ ws) [] [] w h = cc

-- Where a stored wallet has the explicit address, in whatever case of its letters, Pick succeeds: it
-- returns a stored wallet with that address, whatever the default is.
pub pick-explicit :
    (ws : List Wallet) (explicit_addr default_addr : Bytes) (w : Wallet)
    → explicit_addr ≢ []
    → Memᴰ w ws
    → equal_fold w.address explicit_addr ≡ true
    → (v : Wallet) × (pick ws explicit_addr default_addr ≡ ok v)
      × Memᴰ v ws
      × (equal_fold v.address explicit_addr ≡ true)
unfolding pick
pick-explicit ws [] default w asked m e = absurd (asked refl)
pick-explicit [] (a ∷ explicit) default w asked m e = elim m [ ]
pick-explicit (v ∷ ws) (a ∷ explicit) default w asked m e =
    elim (Option-cases (find_by_address (v ∷ ws) (a ∷ explicit))) [
      | inl none_found ↦ absurd (find_complete (v ∷ ws) (a ∷ explicit) w m e none_found)
      | inr (u, found) ↦
          let (member, named) = find_sound (v ∷ ws) (a ∷ explicit) u found in
          (u, rw found, member, named)
    ]
