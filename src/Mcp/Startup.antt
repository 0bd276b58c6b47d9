-- ===== src/Mcp/Startup.antt =====
-- What the checks of Run guarantee to the calls, and what resolveSwap returns.
use lazyswap.Prelude.{
  ℕ, ◌^◌, ◌≤◌, ◌<◌, ◌≡◌, refl, sym, ap, ap₂, ◌∙◌, subst, Bool, true, false, ◌&&◌, List, [], ◌∷◌,
  if◌then◌else◌, inl, inr, some, Bool-cases, ltb, leb, all, arith,
}
use lazyswap.Prelude.Text.{Bytes}
use lazyswap.Prelude.Result.{Result, ok, err, map_err, returned}
use lazyswap.Float.{Float64, HasWholeNumbers}
use lazyswap.Chain.{has}
use lazyswap.Crypto.{Primitives}
use lazyswap.Wallet.{Sql}
use lazyswap.Settings.{Settings, in_range, Loaded, checked, load}
use lazyswap.Settings.Loading.{load-IsValid}
use lazyswap.Swap.Token.{TokenInfo}
use lazyswap.Mcp.{
  resolve_on, token_on, McpError, max_usd_missing, total_below_max, settings_error, Options, SwapIn,
  Resolved, budget, check_options, known_chains, load_settings, chain_key, slippage, resolve_swap,
}

known_chains-has : (ks : List Bytes) → known_chains ks ≡ ok tt → all has ks ≡ true
unfolding known_chains
known_chains-has [] h = refl
known_chains-has (k ∷ ks) h = elim (Bool-cases (has k)) [
  | inl e ↦ let rest = rw e at h in rw (e, known_chains-has ks rest)
  | inr e ↦ let refused = rw e at h in cc
]

-- the checks of Run on whole limits
passes :
    (m t : ℕ) (r : Result McpError (Unit {0}))
    → (if leb m 0
        then err max_usd_missing
        else if ltb 0 t && ltb t m
        then err total_below_max
        else r)
      ≡ ok tt
    → (0 < m) × (ltb 0 t ≡ true → m ≤ t) × (r ≡ ok tt)
passes m t r h = elim (Bool-cases (leb m 0)) [
  | inl e ↦ let refused = rw e at h in cc
  | inr e ↦ elim (Bool-cases (ltb 0 t && ltb t m)) [
    | inl f ↦ let refused = rw (e, f) at h in cc
    | inr f ↦ let rest = rw (e, f) at h in (ground arith, (λ g. ground arith), rest)
  ]
]

module _ (fl : Float64) (whole : HasWholeNumbers fl) where
  open fl use {F, of_ℕ, lt, le}

  -- A server that starts for trading has a positive per-swap cap and a budget of at least that cap,
  -- and names only chains of the registry, if its two limits are whole numbers of dollars up to
  -- 2 ^ 53.
  pub check_options-budget :
      (opts : Options F) (m t : ℕ)
      → m ≤ 2 ^ 53
      → t ≤ 2 ^ 53
      → opts.max_usd ≡ of_ℕ m
      → opts.max_usd_total ≡ of_ℕ t
      → opts.allow_trading ≡ true
      → check_options fl opts ≡ ok tt
      → (0 < m)
        × ((b : ℕ) × (budget fl opts ≡ of_ℕ b) × (m ≤ b))
        × (all has opts.allowed_chains ≡ true)
  unfolding check_options budget
  check_options-budget opts m t small_m small_t is_m is_t trading h =
      let some_total : lt (of_ℕ 0) opts.max_usd_total ≡ ltb 0 t =
        ap (lt (of_ℕ 0)) is_t ∙ whole.lt_whole 0 t (omega arith) small_t in
      let below : lt opts.max_usd_total opts.max_usd ≡ ltb t m =
        ap₂ lt is_t is_m ∙ whole.lt_whole t m small_t small_m in
      let missing : le opts.max_usd (of_ℕ 0) ≡ leb m 0 =
        ap (λ x. le x (of_ℕ 0)) is_m ∙ whole.le_whole m 0 small_m (omega arith) in
      let (positive, at_least, known) =
        passes m t (known_chains opts.allowed_chains)
          (rw (trading, missing, some_total, below) at h) in
      (positive, total_of (ltb 0 t) some_total at_least, known_chains-has opts.allowed_chains known)
    where
      total_of :
          (positive : Bool)
          → lt (of_ℕ 0) opts.max_usd_total ≡ positive
          → (positive ≡ true → m ≤ t)
          → (b : ℕ) × (budget fl opts ≡ of_ℕ b) × (m ≤ b)
      total_of true e f = (t, rw e is_t, f refl)
      total_of false e f = (m, rw e is_m, omega arith)

module _ (fl : Float64) (sql : Sql) (p : Primitives) (rpc : Bytes) where
  open fl use {F, of_ℕ, lt, le, half}
  open sql use {Db}

  chain_key-has :
      (db : Db) (explicit key : Bytes)
      → in_range fl half ≡ true
      → chain_key fl sql p db explicit ≡ ok key
      → has key ≡ true
  unfolding chain_key
  chain_key-has db [] key default_ok h =
      let (st, loaded, same) = returned (load_settings fl sql p db) (λ st. ok st.chain_key) h in
      let valid = load-IsValid fl sql (some db) default_ok in
      subst (λ k. has k ≡ true)
        (ap (λ (s : Settings F). s.chain_key) (of_load (load fl sql (some db)) loaded) ∙ of_ok same)
        valid.chain
    where
      of_load :
          (r : Loaded fl sql) {st : Settings F}
          → map_err settings_error (checked fl sql r) ≡ ok st
          → r.0 ≡ st
      of_load (s, ok x) k = cc
      of_load (s, err x) k = absurd cc

      of_ok : {a b : Bytes} → ◌≡◌ {A = Result McpError Bytes} (ok a) (ok b) → a ≡ b
      of_ok h = cc
  chain_key-has db (c ∷ explicit) key default_ok h = elim (Bool-cases (has (c ∷ explicit))) [
    | inl e ↦ let same : c ∷ explicit ≡ key = of_ok (rw e at h) in subst (λ k. has k ≡ true) same e
    | inr e ↦ let refused = rw e at h in cc
  ]
    where
      of_ok : {a b : Bytes} → ◌≡◌ {A = Result McpError Bytes} (ok a) (ok b) → a ≡ b
      of_ok h = cc

  resolve_on-key :
      (key usd : Bytes) (a b : Result McpError TokenInfo) (c : Result McpError F) {q : Resolved F}
      → resolve_on fl sql p key usd a b c ≡ ok q
      → (key ≡ q.key) × (usd ≡ q.usd)
  resolve_on-key key usd (ok a) (ok b) (ok c) h = (
    ap (λ (x : Result McpError (Resolved F)). key_or x) h,
    ap (λ (x : Result McpError (Resolved F)). usd_or x) h,
  )
    where
      key_or : Result McpError (Resolved F) → Bytes
      key_or (ok x) = x.key
      key_or (err x) = key

      usd_or : Result McpError (Resolved F) → Bytes
      usd_or (ok x) = x.usd
      usd_or (err x) = usd
  resolve_on-key key usd (ok a) (ok b) (err x) h = cc
  resolve_on-key key usd (ok a) (err x) c h = cc
  resolve_on-key key usd (err x) b c h = cc

  -- A request that resolveSwap accepts asks for a positive amount, and is resolved to a chain of the
  -- registry: the named one, or the configured one whatever the database holds. The amount that is
  -- traded is the printed form of the amount that was asked for.
  pub resolve_swap-has :
      (db : Db) (r : SwapIn F) (q : Resolved F)
      → in_range fl half ≡ true
      → resolve_swap fl sql p rpc db r ≡ ok q
      → (le r.usd (of_ℕ 0) ≡ false)
        × (chain_key fl sql p db r.chain ≡ ok q.key)
        × (has q.key ≡ true)
        × (q.usd ≡ fl.format_shortest r.usd)
  unfolding resolve_swap
  resolve_swap-has db r q default_ok h = elim (Bool-cases (le r.usd (of_ℕ 0))) [
    | inl e ↦ let refused = rw e at h in cc
    | inr e ↦
        let (key, found, h1) = returned (chain_key fl sql p db r.chain) _ (rw e at h) in
        let (same, text) =
          resolve_on-key key (fl.format_shortest r.usd) (token_on fl sql p rpc key r.from_symbol)
            (token_on fl sql p rpc key r.to_symbol) (slippage fl sql p db r.slippage) h1 in
        (
          e,
          subst (λ k. chain_key fl sql p db r.chain ≡ ok k) same found,
          subst (λ k. has k ≡ true) same (chain_key-has db r.chain key default_ok found),
          sym text,
        )
  ]
