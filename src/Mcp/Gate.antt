-- ===== src/Mcp/Gate.antt =====
-- What a call of swap_execute has to pass before anything is signed, and what it leaves of the
-- server's state on every path.
use lazyswap.Prelude.{◌≡◌, refl, ◌∙◌, true, false, ◌&&◌, not, Option, ◌⊎◌, inl, inr, Bool-cases}
use lazyswap.Prelude.Text.{Bytes}
use lazyswap.Prelude.Result.{Result, ok, err}
use lazyswap.Float.{Float64}
use lazyswap.Chain.{Config, get}
use lazyswap.Crypto.{Primitives}
use lazyswap.Wallet.{Wallet, Sql}
use lazyswap.Safety.Report.{Report}
use lazyswap.Safety.Checker.{ReportCache, should_check, check}
use lazyswap.Swap.Io.{Client, World}
use lazyswap.Swap.Token.{TokenInfo}
use lazyswap.Swap.Flow.{FlowResult, succeeded, failed}
use lazyswap.Mcp.{
  McpError, Server, Outside, SwapIn, Resolved, contains, is_high, trading_chain_allowed, budget,
  reserve, unlock_wallet, resolve_swap,
}
use lazyswap.Mcp.Trade.{
  dialed, flow, risk_report, finish, trade, sign, after_risk, after_budget, after_resolve,
  swap_execute,
}

module _ {Db Node F : Type 0} where
  -- the options and the budget are as before
  pub record Same (s t : Server Db Node F) : Type 0 where
    pub opts : t.opts ≡ s.opts
    pub spent : t.spent_usd ≡ s.spent_usd

  -- and the transactions too
  pub record Quiet (s t : Server Db Node F) : Type 0 where
    pub same : Same s t
    pub sent : t.world.sent ≡ s.world.sent

  pub Quiet-refl : {s : Server Db Node F} → Quiet s s
  Quiet-refl = record { same = record { opts = refl; spent = refl }; sent = refl }

  Same-trans : {s t u : Server Db Node F} → Same s t → Same t u → Same s u
  Same-trans a b = record { opts = b.opts ∙ a.opts; spent = b.spent ∙ a.spent }

  pub Quiet-trans : {s t u : Server Db Node F} → Quiet s t → Quiet t u → Quiet s u
  Quiet-trans a b = record { same = Same-trans a.same b.same; sent = b.sent ∙ a.sent }

  dialed-Quiet :
      (s : Server Db Node F) (key : Bytes) (r : Result Bytes (Unit {0}))
      → Quiet s (dialed s key r).1
  dialed-Quiet s key (ok u) = record { same = record { opts = refl; spent = refl }; sent = refl }
  dialed-Quiet s key (err e) = Quiet-refl

  pub flow-Quiet : (out : Outside) (s : Server Db Node F) (key : Bytes) → Quiet s (flow out s key).1
  unfolding flow
  flow-Quiet out s key = elim (Bool-cases (contains s.flows key)) [
    | inl e ↦ rw e Quiet-refl
    | inr e ↦ rw e (dialed-Quiet s key (out.dial_chain key))
  ]

  pub risk_report-Quiet :
      (out : Outside) (c : Config) (s : Server Db Node F) (key : Bytes) (to_token : TokenInfo)
      → Quiet s (risk_report out c s key to_token).1
  unfolding risk_report
  risk_report-Quiet out c s key to_token = elim (Bool-cases (should_check c to_token)) [
    | inl e ↦ rw e (record { same = record { opts = refl; spent = refl }; sent = refl })
    | inr e ↦ rw e Quiet-refl
  ]

  finish-Same : (s : Server Db Node F) (r : FlowResult × World Node) → Same s (finish s r).1
  finish-Same s (failed from_symbol to_symbol usd e, w) = record { opts = refl; spent = refl }
  finish-Same s (succeeded a b c d e f, w) = record { opts = refl; spent = refl }

module _ (fl : Float64) (cl : Client) (sql : Sql) (p : Primitives) (rpc : Bytes) where
  open fl use {F, lt, sub, add}
  open cl use {Node}
  open sql use {Db}

  -- What a call of swap_execute has passed when it comes to sign: the caps, the budget, the list of
  -- chains, the risk report and the password.
  pub record Passed (out : Outside) (s : Server Db Node F) (r : SwapIn F) : Type 0 where
    pub swap : Resolved F
    pub resolved : resolve_swap fl sql p rpc s.db r ≡ ok swap
    pub below_cap : lt s.opts.max_usd r.usd ≡ false
    pub below_budget : lt (sub (budget fl s.opts) s.spent_usd) r.usd ≡ false
    pub chain_allowed : trading_chain_allowed fl s.opts swap.key ≡ true
    pub risk_allowed :
        (is_high (risk_report out (get rpc swap.key) s swap.key swap.to_token).0
          && not s.opts.allow_risky)
        ≡ false
    pub wallet : Wallet
    pub unlocked : unlock_wallet fl sql p s.db s.pw r.wallet ≡ ok wallet

  trade-Same :
      (q : Resolved F) (w : Wallet) (r : Result McpError (Unit {0}) × Server Db Node F)
      → Same r.1 (trade fl cl sql p rpc q w r).1
  unfolding trade
  trade-Same q w (err e, s) = record { opts = refl; spent = refl }
  trade-Same q w (ok u, s) = finish-Same s _

  -- the state after a call, or the way there, when it was let through or stopped
  record Signed (out : Outside) (q : Resolved F) (r : SwapIn F) (s t : Server Db Node F)
      : Type 0 where
    same : Same s t
    gate :
        (t.world.sent ≡ s.world.sent)
        ⊎ ((w : Wallet) × (unlock_wallet fl sql p s.db s.pw r.wallet ≡ ok w))

  sign-Signed :
      (out : Outside) (q : Resolved F) (r : SwapIn F) (s : Server Db Node F)
      (found : Result McpError Wallet)
      → unlock_wallet fl sql p s.db s.pw r.wallet ≡ found
      → Signed out q r s (sign fl cl sql p rpc out q s found).1
  unfolding sign
  sign-Signed out q r s (err e) found = record { same = Quiet-refl.same; gate = inl refl }
  sign-Signed out q r s (ok w) found = record {
    same = Same-trans (flow-Quiet out s q.key).same (trade-Same q w (flow out s q.key));
    gate = inr (w, found);
  }

  abbrev Opened : (s : Server Db Node F) (r : SwapIn F) → Type 0
  Opened s r = (w : Wallet) × (unlock_wallet fl sql p s.db s.pw r.wallet ≡ ok w)

  -- after the risk report: what is kept, and what has been passed where something was signed
  abbrev Risked : SwapIn F → Option Report → (s t : Server Db Node F) → Type 0
  Risked r rep s t =
      Same s t
      × ((t.world.sent ≡ s.world.sent)
          ⊎ (((is_high rep && not s.opts.allow_risky) ≡ false) × Opened s r))

  after_risk-Risked :
      (out : Outside) (r : SwapIn F) (q : Resolved F) (rep : Option Report) (s : Server Db Node F)
      → Risked r rep s (after_risk fl cl sql p rpc out r q (rep, s)).1
  unfolding after_risk
  after_risk-Risked out r q rep s = elim (Bool-cases (is_high rep && not s.opts.allow_risky)) [
    | inl e ↦ rw e (Quiet-refl.same, inl refl)
    | inr e ↦
        let signed = sign-Signed out q r s (unlock_wallet fl sql p s.db s.pw r.wallet) refl in
        rw e (signed.same, gated refl signed.gate)
  ]
    where
      gated : {A B : Type 0} → B → A ⊎ Opened s r → A ⊎ (B × Opened s r)
      gated e (inl same) = inl same
      gated e (inr w) = inr (e, w)

  -- the report and the state that riskReport leaves, for the server that has booked an amount
  Reported : Outside → Config → (s : Server Db Node F) → F → Bytes → TokenInfo → Type 0
  Reported out c s x key to_token =
      (cache : ReportCache) × (risk_report out c (record s { spent_usd = x }) key to_token
        ≡ ((risk_report out c s key to_token).0, record s { spent_usd = x; cache = cache }))

  risk_report-Reported :
      (out : Outside) (c : Config) (s : Server Db Node F) (x : F) (key : Bytes)
      (to_token : TokenInfo)
      → Reported out c s x key to_token
  unfolding risk_report Reported
  risk_report-Reported out c s x key to_token = elim (Bool-cases (should_check c to_token)) [
    | inl e ↦ ((check out.checker out.now out.later s.cache key to_token.address).1, rw e)
    | inr e ↦ (s.cache, rw e)
  ]

  -- the outcome of a call: nothing is booked and nothing signed, or the amount is booked
  pub data Outcome (out : Outside) (s t : Server Db Node F) (r : SwapIn F) : Type 0 where
    refused : Quiet s t → Outcome out s t r
    booked :
        lt (sub (budget fl s.opts) s.spent_usd) r.usd ≡ false
        → t.opts ≡ s.opts
        → t.spent_usd ≡ add s.spent_usd r.usd
        → (t.world.sent ≡ s.world.sent) ⊎ Passed out s r
        → Outcome out s t r

  of_reserved :
      (out : Outside) (s : Server Db Node F) (r : SwapIn F) (q : Resolved F)
      → resolve_swap fl sql p rpc s.db r ≡ ok q
      → lt s.opts.max_usd r.usd ≡ false
      → lt (sub (budget fl s.opts) s.spent_usd) r.usd ≡ false
      → (left : F)
      → Outcome out s
          (after_budget fl cl sql p rpc out r q
            ((left, true), record s { spent_usd = add s.spent_usd r.usd })).1
          r
  unfolding after_budget Reported
  of_reserved out s r q resolved capped fits left =
      elim (Bool-cases (trading_chain_allowed fl s.opts q.key)) [
        | inr e ↦ rw e (booked fits refl refl (inl refl))
        | inl e ↦
            let (cache, eq) =
              risk_report-Reported out (get rpc q.key) s (add s.spent_usd r.usd) q.key q.to_token in
            let (same, gate) =
              after_risk-Risked out r q _
                (record s { spent_usd = add s.spent_usd r.usd; cache = cache }) in
            rw (e, eq) (booked fits same.opts same.spent (passed e gate))
      ]
    where
      passed :
          {A : Type 0}
          → trading_chain_allowed fl s.opts q.key ≡ true
          → A
            ⊎ (((is_high (risk_report out (get rpc q.key) s q.key q.to_token).0
                    && not s.opts.allow_risky)
                  ≡ false)
                × Opened s r)
          → A ⊎ Passed out s r
      passed allowed (inl a) = inl a
      passed allowed (inr (risk, opened)) = inr (record {
        swap = q;
        resolved = resolved;
        below_cap = capped;
        below_budget = fits;
        chain_allowed = allowed;
        risk_allowed = risk;
        wallet = opened.0;
        unlocked = opened.1;
      })

  of_resolved :
      (out : Outside) (s : Server Db Node F) (r : SwapIn F) (found : Result McpError (Resolved F))
      → resolve_swap fl sql p rpc s.db r ≡ found
      → Outcome out s (after_resolve fl cl sql p rpc out s r found).1 r
  unfolding after_resolve reserve after_budget
  of_resolved out s r (err e) found = refused Quiet-refl
  of_resolved out s r (ok q) found = elim (Bool-cases (lt s.opts.max_usd r.usd)) [
    | inl e ↦ rw e (refused Quiet-refl)
    | inr capped ↦ elim (Bool-cases (lt (sub (budget fl s.opts) s.spent_usd) r.usd)) [
      | inl e ↦ rw (capped, e) (refused Quiet-refl)
      | inr fits ↦
          rw (capped, fits)
            (of_reserved out s r q found capped fits
              (sub (budget fl s.opts) (add s.spent_usd r.usd)))
    ]
  ]

  -- A call of swap_execute leaves options, budget and transactions as they were; or the amount
  -- fits into what is left of the budget, exactly it is booked, and if any transaction was signed
  -- then the per-swap cap, the list of chains, the risk verdict and the password were passed.
  pub swap_execute-Outcome :
      (out : Outside) (s : Server Db Node F) (r : SwapIn F)
      → Outcome out s (swap_execute fl cl sql p rpc out s r).1 r
  unfolding swap_execute
  swap_execute-Outcome out s r = of_resolved out s r (resolve_swap fl sql p rpc s.db r) refl

  -- Every call of swap_execute that signed a transaction passed every guard first: the amount is at
  -- most the per-swap cap and fits into what is left of the budget, the chain is in the list, no
  -- HIGH risk stands unless risky tokens are allowed, and the password opened the wallet. Any other
  -- call leaves the transactions as they were.
  pub swap_execute-Passed :
      (out : Outside) (s : Server Db Node F) (r : SwapIn F)
      → ((swap_execute fl cl sql p rpc out s r).1.world.sent ≡ s.world.sent) ⊎ Passed out s r
  swap_execute-Passed out s r = of_outcome (swap_execute-Outcome out s r)
    where
      of_outcome :
          {t : Server Db Node F}
          → Outcome out s t r
          → (t.world.sent ≡ s.world.sent) ⊎ Passed out s r
      of_outcome (refused quiet) = inl quiet.sent
      of_outcome (booked fits opts spent gate) = gate
