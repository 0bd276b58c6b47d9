-- ===== src/Mcp/Budget.antt =====
-- The budget over the life of a server: calls of all the tools in any order.
use lazyswap.Prelude.{
  ℕ, ◌+◌, ◌-◌, ◌^◌, ◌≤◌, ◌≡◌, refl, sym, ap, ap₂, ◌∙◌, Bool, true, false, List, [], ◌∷◌,
  if◌then◌else◌, and_split, ltb, leb, length, all, arith, leb→le,
}
use lazyswap.Prelude.Text.{Bytes}
use lazyswap.Prelude.Result.{Result, err}
use lazyswap.Float.{Float64, HasWholeNumbers}
use lazyswap.Crypto.{Primitives}
use lazyswap.Wallet.{Sql}
use lazyswap.Swap.Io.{Client}
use lazyswap.Mcp.Readers.{GetBalancesIn}
use lazyswap.Mcp.{McpError, Server, Outside, SwapIn, SetSettingsIn, budget}
use lazyswap.Mcp.Tools.{
  ToolOut, call_swap_quote, call_swap_execute, call_get_settings, call_set_settings,
  call_list_chains, call_get_wallets, call_get_balances, handle, dispatch,
}
use lazyswap.Mcp.Gate.{Quiet, Quiet-refl, Outcome, refused, booked, swap_execute-Outcome}
use lazyswap.Mcp.ReadOnly.{get_balances-Quiet, swap_quote-Quiet}

-- What an agent does: it asks for a swap of a whole number of dollars, or calls another tool.
pub data Event (F : Type 0) : Type 0 where
  trading : Outside → ℕ → SwapIn F → Event F
  quoting : Outside → SwapIn F → Event F
  reading listing_chains listing_wallets : Outside → Event F
  balancing : Outside → GetBalancesIn → Event F
  writing : Outside → SetSettingsIn F → Event F

-- the dollars that an event asks to trade
abbrev pub dollars : {F : Type 0} → Event F → ℕ
dollars (trading out n r) = n
dollars _ = 0

-- amounts that a float represents exactly
abbrev pub is_small : {F : Type 0} → Event F → Bool
is_small e = leb (dollars e) (2 ^ 53)

module _ (fl : Float64) (cl : Client) (sql : Sql) (p : Primitives) (rpc : Bytes) where
  open fl use {F, of_ℕ, lt, le, sub, add}
  open cl use {Node}
  open sql use {Db}

  -- the state after an event
  unfoldable pub serve : Server Db Node F → Event F → Server Db Node F
  serve s (trading out n r) =
      (handle fl cl sql p rpc out s (call_swap_execute (record r { usd = of_ℕ n }))).1
  serve s (quoting out r) = (handle fl cl sql p rpc out s (call_swap_quote r)).1
  serve s (reading out) = (handle fl cl sql p rpc out s call_get_settings).1
  serve s (listing_chains out) = (handle fl cl sql p rpc out s call_list_chains).1
  serve s (listing_wallets out) = (handle fl cl sql p rpc out s call_get_wallets).1
  serve s (balancing out r) = (handle fl cl sql p rpc out s (call_get_balances r)).1
  serve s (writing out r) = (handle fl cl sql p rpc out s (call_set_settings r)).1

  -- the dollars of an event that signed at least one transaction
  unfoldable pub signed_dollars : Server Db Node F → Event F → ℕ
  signed_dollars s e =
      if ltb (length s.world.sent) (length (serve s e).world.sent) then dollars e else 0

  -- over a sequence of events, the dollars of those that signed a transaction
  unfoldable pub total_signed : Server Db Node F → List (Event F) → ℕ
  total_signed s [] = 0
  total_signed s (e ∷ es) = signed_dollars s e + total_signed (serve s e) es

  -- The server has spent `m` of its budget of `b` dollars.
  pub record Spent (s : Server Db Node F) (m b : ℕ) : Type 0 where
    pub spent : s.spent_usd ≡ of_ℕ m
    pub total : budget fl s.opts ≡ of_ℕ b
    pub within : m ≤ b

  module _ (whole : HasWholeNumbers fl) where
    -- one event takes `k` more dollars, of which it signs no more
    unfoldable pub Step : Server Db Node F → Event F → ℕ → ℕ → Type 0
    Step s e m b = (k : ℕ) × Spent (serve s e) (m + k) b × (signed_dollars s e ≤ k)

    of_Quiet :
        (s : Server Db Node F) (e : Event F) (m b : ℕ)
        → Quiet s (serve s e)
        → Spent s m b
        → Step s e m b
    unfolding Step signed_dollars
    of_Quiet s e m b quiet h = (
      0,
      record {
        spent = quiet.same.spent ∙ h.spent ∙ ap of_ℕ (omega arith);
        total = ap (budget fl) quiet.same.opts ∙ h.total;
        within = omega (arith, h.within);
      },
      nothing_signed (sym (ap length quiet.sent)),
    )
      where
        nothing_signed :
            {n : ℕ}
            → length s.world.sent ≡ n
            → (if ltb (length s.world.sent) n then dollars e else 0) ≤ 0
        nothing_signed same = ground arith

    signed_at_most : (s : Server Db Node F) (e : Event F) → signed_dollars s e ≤ dollars e
    unfolding signed_dollars
    signed_at_most s e = ground arith

    fits_whole :
        (s : Server Db Node F) (m n b : ℕ)
        → b ≤ 2 ^ 53
        → n ≤ 2 ^ 53
        → Spent s m b
        → lt (sub (budget fl s.opts) s.spent_usd) (of_ℕ n) ≡ false
        → n ≤ b - m
    fits_whole s m n b small_b small_n h fits =
        let within = h.within in
        let left : sub (budget fl s.opts) s.spent_usd ≡ of_ℕ (b - m) =
          ap₂ sub h.total h.spent ∙ whole.sub_whole b m within small_b in
        let compared : ltb (b - m) n ≡ false =
          sym (whole.lt_whole (b - m) n (omega arith) small_n)
          ∙ sym (ap (λ x. lt x (of_ℕ n)) left)
          ∙ fits in
        ground arith

    of_Outcome :
        (out : Outside) (s : Server Db Node F) (n : ℕ) (r : SwapIn F) (m b : ℕ)
        → b ≤ 2 ^ 53
        → n ≤ 2 ^ 53
        → Spent s m b
        → Outcome fl cl sql p rpc out s (serve s (trading out n r)) (record r { usd = of_ℕ n })
        → Step s (trading out n r) m b
    unfolding Step
    of_Outcome out s n r m b small_b small_n h (refused quiet) =
        of_Quiet s (trading out n r) m b quiet h
    of_Outcome out s n r m b small_b small_n h (booked fits opts spent gate) =
        let room = fits_whole s m n b small_b small_n h fits in
        let within = h.within in
        (
          n,
          record {
            spent = spent ∙ ap (λ x. add x (of_ℕ n)) h.spent ∙ whole.add_whole m n (omega arith);
            total = ap (budget fl) opts ∙ h.total;
            within = omega arith;
          },
          signed_at_most s (trading out n r),
        )

    serve-Outcome :
        (out : Outside) (s : Server Db Node F) (n : ℕ) (r : SwapIn F)
        → Outcome fl cl sql p rpc out s (serve s (trading out n r)) (record r { usd = of_ℕ n })
    unfolding serve handle dispatch
    serve-Outcome out s n r =
        if_registered s.opts.allow_trading _ _
          (swap_execute-Outcome fl cl sql p rpc out s (record r { usd = of_ℕ n }))
      where
        if_registered :
            (on : Bool) (e : McpError) (x : Result McpError (ToolOut F) × Server Db Node F)
            → Outcome fl cl sql p rpc out s x.1 (record r { usd = of_ℕ n })
            → Outcome fl cl sql p rpc out s
                (if◌then◌else◌ {A = Result McpError (ToolOut F) × Server Db Node F} on x
                  (err e, s)).1
                (record r { usd = of_ℕ n })
        if_registered true e x o = o
        if_registered false e x o = refused Quiet-refl

    pub serve-Step :
        (s : Server Db Node F) (e : Event F) (m b : ℕ)
        → b ≤ 2 ^ 53
        → is_small e ≡ true
        → Spent s m b
        → Step s e m b
    unfolding serve handle dispatch
    serve-Step s (trading out n r) m b small_b small_n h =
        of_Outcome out s n r m b small_b (leb→le n (2 ^ 53) small_n) h (serve-Outcome out s n r)
    serve-Step s (quoting out r) m b small_b small_n h =
        of_Quiet s (quoting out r) m b (swap_quote-Quiet fl cl sql p rpc out s r) h
    serve-Step s (reading out) m b small_b small_n h = of_Quiet s (reading out) m b Quiet-refl h
    serve-Step s (listing_chains out) m b small_b small_n h =
        of_Quiet s (listing_chains out) m b Quiet-refl h
    serve-Step s (listing_wallets out) m b small_b small_n h =
        of_Quiet s (listing_wallets out) m b Quiet-refl h
    serve-Step s (balancing out r) m b small_b small_n h =
        of_Quiet s (balancing out r) m b (get_balances-Quiet fl cl sql p rpc out s r) h
    serve-Step s (writing out r) m b small_b small_n h =
        of_Quiet s (writing out r) m b
          (record { same = record { opts = refl; spent = refl }; sent = refl }) h

    -- A session never trades more than the budget: from a server that has spent `m` of its `b`
    -- dollars, over calls of all the tools in any order, the dollars of the calls that signed a
    -- transaction come to at most `b - m`, whatever the nodes, the database and the token checker
    -- answer. Amounts and budget are whole numbers of dollars up to 2 ^ 53.
    pub total_signed-budget :
        (es : List (Event F)) (s : Server Db Node F) (m b : ℕ)
        → b ≤ 2 ^ 53
        → all is_small es ≡ true
        → Spent s m b
        → m + total_signed s es ≤ b
    unfolding total_signed Step
    total_signed-budget [] s m b small_b small h = let within = h.within in omega arith
    total_signed-budget (e ∷ es) s m b small_b small h =
        let (small_e, small_es) = and_split (is_small e) (all is_small es) small in
        let (k, after, signed) = serve-Step s e m b small_b small_e h in
        let rest = total_signed-budget es (serve s e) (m + k) b small_b small_es after in
        omega arith
