-- ===== src/Mcp/Ledger.antt =====
-- What the budget promises, as a ledger, and the server as a refinement of it.
use lazyswap.Prelude.{List, [], all, and_split, true, ℕ, ◌+◌, ◌^◌, ◌∷◌, ◌≡◌, ◌≤◌}
use lazyswap.Prelude.Text.{Bytes}
use lazyswap.Crypto.{Primitives}
use lazyswap.Float.{Float64, HasWholeNumbers}
use lazyswap.Mcp.{Server}
use lazyswap.Mcp.Budget.{Event, Spent, Step, is_small, serve, serve-Step, signed_dollars}
use lazyswap.Swap.Io.{Client}
use lazyswap.Wallet.{Sql}

-- The ledger: from `m` dollars spent of `b`, the amounts are booked one after the other, each where
-- it still fits, and leave `n` spent. Nothing is ever booked back.
pub data Books (b : ℕ) : ℕ → List ℕ → ℕ → Type 0 where
  closed : {m : ℕ} → Books b m [] m
  entry : {m n : ℕ} {ks : List ℕ} (k : ℕ) → m + k ≤ b → Books b (m + k) ks n → Books b m (k ∷ ks) n

-- each of the first amounts is covered by that of the second list at its place
abbrev pub Covered : List ℕ → List ℕ → Type 0
Covered [] [] = Unit
Covered (x ∷ xs) (k ∷ ks) = (x ≤ k) × Covered xs ks
Covered _ _ = ⊥

module _ (fl : Float64) (cl : Client) (sql : Sql) (p : Primitives) (rpc : Bytes) where
  open fl use {F}
  open cl use {Node}
  open sql use {Db}

  -- the server after a sequence of events
  unfoldable pub serve_all : Server Db Node F → List (Event F) → Server Db Node F
  serve_all s [] = s
  serve_all s (e ∷ es) = serve_all (serve fl cl sql p rpc s e) es

  -- for each event, the dollars that it signed
  unfoldable pub signed_amounts : Server Db Node F → List (Event F) → List ℕ
  signed_amounts s [] = []
  signed_amounts s (e ∷ es) =
      signed_dollars fl cl sql p rpc s e ∷ signed_amounts (serve fl cl sql p rpc s e) es

  -- The server refines the ledger: over calls of all the tools in any order there is a run of the
  -- ledger with one entry for each call, which starts at what the server has spent and ends at what
  -- it has spent in the end, and whose entries cover the dollars that the calls signed. Amounts and
  -- budget are whole numbers of dollars up to 2 ^ 53.
  pub serve_all-Books :
      HasWholeNumbers fl
      → (es : List (Event F)) (s : Server Db Node F) (m b : ℕ) → b ≤ 2 ^ 53
      → all is_small es ≡ true
      → Spent fl cl sql p rpc s m b
      → (ks : List ℕ) × (n : ℕ) × Books b m ks n
        × Spent fl cl sql p rpc (serve_all s es) n b
        × Covered (signed_amounts s es) ks
  unfolding serve_all signed_amounts Step
  serve_all-Books whole [] s m b small_b small h = ([], m, closed, h, tt)
  serve_all-Books whole (e ∷ es) s m b small_b small h =
      let (small_e, small_es) = and_split (is_small e) (all is_small es) small in
      let (k, after, signed) = serve-Step fl cl sql p rpc whole s e m b small_b small_e h in
      let (ks, n, books, spent, covered) =
        serve_all-Books whole es (serve fl cl sql p rpc s e) (m + k) b small_b small_es after in
      (k ∷ ks, n, entry k after.within books, spent, (signed, covered))
