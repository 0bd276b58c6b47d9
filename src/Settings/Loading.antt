-- ===== src/Settings/Loading.antt =====
-- What is loaded: the settings of three rows, valid whatever they hold.
use lazyswap.Prelude.{◌≡◌, refl, ◌∙◌, ap, sym, true, Option, none, some, Bool-cases, inl, inr}
use lazyswap.Prelude.Text.{Bytes}
use lazyswap.Prelude.Result.{Result, ok, err, map_err}
use lazyswap.Float.{Float64, HasShortest}
use lazyswap.Chain.{default_key, has}
use lazyswap.Wallet.{Sql}
use lazyswap.Settings.{
  database, key_slippage, key_chain, key_default_wallet, Settings, defaults, in_range, apply_parsed,
  apply_slippage, apply_chain, apply_default_wallet, load, Loaded, after_row, row, SettingsError,
}

-- A slippage in the range 0 to 100, and a chain of the registry.
pub record IsValid (fl : Float64) (s : Settings fl.F) : Type 0 where
  pub slippage : in_range fl s.slippage ≡ true
  pub chain : has s.chain_key ≡ true

has-default_key : has default_key ≡ true
unfolding has
has-default_key = refl

module _ (fl : Float64) where
  open fl use {F, half}

  apply_slippage-IsValid :
      (row : Option Bytes) (s : Settings F) → IsValid fl s → IsValid fl (apply_slippage fl row s)
  unfolding apply_slippage
  apply_slippage-IsValid none s v = v
  apply_slippage-IsValid (some text) s v = parsed (fl.parse text)
    where
      parsed : (o : Option F) → IsValid fl (apply_parsed fl o s)
      parsed none = v
      parsed (some f) = elim (Bool-cases (in_range fl f)) [
        | inl e ↦ rw e (record { slippage = e; chain = v.chain })
        | inr e ↦ rw e v
      ]

  apply_chain-IsValid :
      (row : Option Bytes) (s : Settings F) → IsValid fl s → IsValid fl (apply_chain fl row s)
  unfolding apply_chain
  apply_chain-IsValid none s v = v
  apply_chain-IsValid (some key) s v = elim (Bool-cases (has key)) [
    | inl e ↦ rw e (record { slippage = v.slippage; chain = e })
    | inr e ↦ rw e v
  ]

  apply_default_wallet-IsValid :
      (row : Option Bytes) (s : Settings F)
      → IsValid fl s
      → IsValid fl (apply_default_wallet fl row s)
  unfolding apply_default_wallet
  apply_default_wallet-IsValid none s v = v
  apply_default_wallet-IsValid (some addr) s v = record { slippage = v.slippage; chain = v.chain }

  -- the settings of three rows
  pub assemble : (slippage chain wallet : Option Bytes) → Settings F
  assemble slippage chain wallet =
      apply_default_wallet fl wallet
        (apply_chain fl chain (apply_slippage fl slippage (defaults fl)))

  apply_chain-slippage :
      (chain : Option Bytes) (s : Settings F) (v : F)
      → apply_chain fl chain (record s { slippage = v })
        ≡ record (apply_chain fl chain s) { slippage = v }
  unfolding apply_chain
  apply_chain-slippage none s v = refl
  apply_chain-slippage (some key) s v = elim (Bool-cases (has key)) [ inl e ↦ rw e | inr e ↦ rw e ]

  apply_chain-forgets :
      (key : Bytes) (chain : Option Bytes) (s : Settings F)
      → has key ≡ true
      → apply_chain fl (some key) s ≡ record (apply_chain fl chain s) { chain_key = key }
  unfolding apply_chain
  apply_chain-forgets key none s h = rw h
  apply_chain-forgets key (some j) s h = elim (Bool-cases (has j)) [
    | inl e ↦ rw (h, e)
    | inr e ↦ rw (h, e)
  ]

  apply_slippage-forgets :
      (row : Option Bytes) (v : F)
      → record (apply_slippage fl row (defaults fl)) { slippage = v }
        ≡ record (defaults fl) { slippage = v }
  unfolding apply_slippage
  apply_slippage-forgets none v = refl
  apply_slippage-forgets (some text) v = parsed (fl.parse text)
    where
      parsed :
          (o : Option F)
          → record (apply_parsed fl o (defaults fl)) { slippage = v }
            ≡ record (defaults fl) { slippage = v }
      parsed none = refl
      parsed (some f) = elim (Bool-cases (in_range fl f)) [ inl e ↦ rw e | inr e ↦ rw e ]

  apply_slippage-stored :
      (v : F)
      → HasShortest fl
      → in_range fl v ≡ true
      → apply_slippage fl (some (fl.format_shortest v)) (defaults fl)
        ≡ record (defaults fl) { slippage = v }
  unfolding apply_slippage
  apply_slippage-stored v shortest fits = rw (shortest.round_trip v, fits)

  apply_default_wallet-slippage :
      (wallet : Option Bytes) (s : Settings F) (v : F)
      → apply_default_wallet fl wallet (record s { slippage = v })
        ≡ record (apply_default_wallet fl wallet s) { slippage = v }
  unfolding apply_default_wallet
  apply_default_wallet-slippage none s v = refl
  apply_default_wallet-slippage (some addr) s v = refl

  apply_default_wallet-chain :
      (wallet : Option Bytes) (s : Settings F) (key : Bytes)
      → apply_default_wallet fl wallet (record s { chain_key = key })
        ≡ record (apply_default_wallet fl wallet s) { chain_key = key }
  unfolding apply_default_wallet
  apply_default_wallet-chain none s key = refl
  apply_default_wallet-chain (some addr) s key = refl

  pub assemble-slippage :
      (old chain wallet : Option Bytes) (v : F)
      → HasShortest fl
      → in_range fl v ≡ true
      → assemble (some (fl.format_shortest v)) chain wallet
        ≡ record (assemble old chain wallet) { slippage = v }
  unfolding assemble
  assemble-slippage old chain wallet v shortest fits =
      ap (λ s. apply_default_wallet fl wallet (apply_chain fl chain s))
        (apply_slippage-stored v shortest fits ∙ sym (apply_slippage-forgets old v))
      ∙ ap (apply_default_wallet fl wallet)
          (apply_chain-slippage chain (apply_slippage fl old (defaults fl)) v)
      ∙ apply_default_wallet-slippage wallet _ v

  pub assemble-chain :
      (slippage old wallet : Option Bytes) (key : Bytes)
      → has key ≡ true
      → assemble slippage (some key) wallet
        ≡ record (assemble slippage old wallet) { chain_key = key }
  unfolding assemble
  assemble-chain slippage old wallet key known =
      ap (apply_default_wallet fl wallet) (apply_chain-forgets key old _ known)
      ∙ apply_default_wallet-chain wallet _ key

  pub assemble-default_wallet :
      (slippage chain old : Option Bytes) (address : Bytes)
      → assemble slippage chain (some address)
        ≡ record (assemble slippage chain old) { default_wallet = address }
  unfolding assemble apply_default_wallet
  assemble-default_wallet slippage chain none address = refl
  assemble-default_wallet slippage chain (some addr) address = refl

module _ (fl : Float64) (sql : Sql) where
  open fl use {F, half}
  open sql use {Db, select_value, upsert}

  pub record Rows (db : Db) (slippage chain wallet : Option Bytes) : Type 0 where
    pub slippage_row : select_value db key_slippage ≡ ok slippage
    pub chain_row : select_value db key_chain ≡ ok chain
    pub wallet_row : select_value db key_default_wallet ≡ ok wallet

  pub load_of_Rows :
      (db : Db) (a b c : Option Bytes)
      → Rows db a b c
      → load fl sql (some db) ≡ (assemble fl a b c, ok tt)
  unfolding load assemble
  load_of_Rows db a b c r = rw (r.slippage_row, r.chain_row, r.wallet_row)

  -- the settings behind the first row, and behind the second
  abbrev behind_slippage : Db → Loaded fl sql
  behind_slippage db =
      after_row fl sql (row fl sql db key_slippage) (apply_slippage fl) (defaults fl, ok tt)

  abbrev behind_chain : Db → Loaded fl sql
  behind_chain db = after_row fl sql (row fl sql db key_chain) (apply_chain fl) (behind_slippage db)

  after_row_ok :
      (r : Result Bytes (Option Bytes)) (apply : Option Bytes → Settings F → Settings F)
      (x : Loaded fl sql) (s : Settings F)
      → after_row fl sql (map_err database r) apply x ≡ (s, ok tt)
      → (v : Option Bytes) × (t : Settings F) × (r ≡ ok v) × (x ≡ (t, ok tt)) × (apply v t ≡ s)
  after_row_ok r apply (t, err e) s h = absurd cc
  after_row_ok (err e) apply (t, ok u) s h = absurd cc
  after_row_ok (ok v) apply (t, ok u) s h = (v, t, refl, refl, ap (λ (l : Loaded fl sql). l.0) h)

  pub Rows-of_load :
      (db : Db) (s : Settings F)
      → load fl sql (some db) ≡ (s, ok tt)
      → (a : Option Bytes) × (b : Option Bytes) × (c : Option Bytes) × Rows db a b c
        × (assemble fl a b c ≡ s)
  unfolding load assemble
  Rows-of_load db s h =
      let (c, s2, e3, h2, same3) =
        after_row_ok (select_value db key_default_wallet) (apply_default_wallet fl)
          (behind_chain db) s h in
      let (b, s1, e2, h1, same2) =
        after_row_ok (select_value db key_chain) (apply_chain fl) (behind_slippage db) s2 h2 in
      let (a, s0, e1, h0, same1) =
        after_row_ok (select_value db key_slippage) (apply_slippage fl) (defaults fl, ok tt) s1
          h1 in
      let start : defaults fl ≡ s0 = ap (λ (l : Loaded fl sql). l.0) h0 in
      (
        a,
        b,
        c,
        record { slippage_row = e1; chain_row = e2; wallet_row = e3 },
        ap (apply_default_wallet fl c)
              (ap (apply_chain fl b) (ap (apply_slippage fl a) start ∙ same1) ∙ same2)
            ∙ same3,
      )

  after_row-IsValid :
      (r : Result SettingsError (Option Bytes)) (apply : Option Bytes → Settings F → Settings F)
      (x : Loaded fl sql)
      → ((v : Option Bytes) (s : Settings F) → IsValid fl s → IsValid fl (apply v s))
      → IsValid fl x.0
      → IsValid fl (after_row fl sql r apply x).0
  after_row-IsValid r apply (s, err e) keeps v = v
  after_row-IsValid (err e) apply (s, ok u) keeps v = v
  after_row-IsValid (ok o) apply (s, ok u) keeps v = keeps o s v

  -- Whatever the database holds, and where it fails and Load returns settings beside an error too,
  -- the settings have a slippage between 0 and 100 and a chain of the registry, if the default
  -- slippage 0.5 lies in that range.
  pub load-IsValid : (dao : Option Db) → in_range fl half ≡ true → IsValid fl (load fl sql dao).0
  unfolding load
  load-IsValid none default_ok = record { slippage = default_ok; chain = has-default_key }
  load-IsValid (some db) default_ok =
      after_row-IsValid (row fl sql db key_default_wallet) (apply_default_wallet fl)
        (behind_chain db) (apply_default_wallet-IsValid fl)
        (after_row-IsValid (row fl sql db key_chain) (apply_chain fl) (behind_slippage db)
          (apply_chain-IsValid fl)
          (after_row-IsValid (row fl sql db key_slippage) (apply_slippage fl) (defaults fl, ok tt)
            (apply_slippage-IsValid fl)
            (record { slippage = default_ok; chain = has-default_key })))
