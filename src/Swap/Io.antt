-- ===== src/Swap/Io.antt =====
-- Code that talks to an Ethereum node and signs transactions: a state monad with errors over what
-- the node knows and the list of transactions that were handed to it, the oldest first.
pub mod Sends
pub mod Count
pub mod Leads
use lazyswap.Prelude.{ℕ, ◌≡◌, refl, Bool, true, false, List, [], ◌∷◌, ◌++◌, Option, if◌then◌else◌}
use lazyswap.Prelude.Int.{ℤ}
use lazyswap.Prelude.Text.{Bytes}
use lazyswap.Prelude.Result.{Result, ok, err}
use lazyswap.Error.{Error, Context, external, wrapped}

-- the view functions that the program calls on a contract
pub data Call : Type 0 where
  get_amounts_out : (router : ℕ) (amount_in : ℤ) (path : List ℕ) → Call
  allowance : (token owner spender : ℕ) → Call

-- `out[0]` as a type assertion finds it; nil pointers are `none`
pub data Returned : Type 0 where
  amounts : List (Option ℤ) → Returned
  number : Option ℤ → Returned
  other : Returned

-- the contract methods that the program sends transactions to
pub data Method : Type 0 where
  approve : (token spender : ℕ) (amount : ℤ) → Method
  swap_exact_tokens_for_tokens :
      (router : ℕ) (amount_in amount_out_min : ℤ) (path : List ℕ) (to deadline : ℕ) → Method
  swap_exact_eth_for_tokens :
      (router : ℕ) (amount_out_min : ℤ) (path : List ℕ) (to deadline : ℕ) → Method
  swap_exact_tokens_for_eth :
      (router : ℕ) (amount_in amount_out_min : ℤ) (path : List ℕ) (to deadline : ℕ) → Method
  -- the THORchain router
  deposit_with_expiry : (router vault asset : ℕ) (amount : ℤ) (memo : Bytes) (expiry : ℕ) → Method
  -- types.LegacyTx, a transfer of the value of the transaction that carries data
  transfer : (to : ℕ) (payload : Bytes) (nonce gas : ℕ) (gas_price : ℤ) → Method

-- bind.TransactOpts; of a plain transfer, its key, chain and value
pub record TxOpts : Type 0 where
  pub key : ℕ
  pub chain_id : ℕ
  pub value : Option ℤ

pub record Tx : Type 0 where
  pub opts : TxOpts
  pub method : Method

pub record Receipt : Type 0 where
  pub tx_hash : Bytes
  pub gas_used : ℕ

-- go-ethereum, which the program links: addresses and keys are numbers, every call may fail and
-- may change what the nodes answer next. One client stands for those of all the chains: a call
-- names its chain, and a transaction carries it.
pub record Client : Type 1 where
  pub Node : Type 0
  pub hex_to_address : Bytes → ℕ
  pub is_hex_address : Bytes → Bool
  pub hex_to_ecdsa : Bytes → Result Bytes ℕ
  pub pubkey_to_address : ℕ → ℕ
  pub new_transactor : (key chain_id : ℕ) → Result Bytes (Unit {0})
  pub pending_nonce : (chain_id account : ℕ) → Node → Result Bytes ℕ × Node
  pub suggest_gas_price : (chain_id : ℕ) → Node → Result Bytes ℤ × Node
  pub estimate_gas :
      (chain_id from to : ℕ) (value : ℤ) (payload : Bytes) → Node → Result Bytes ℕ × Node
  pub sign_tx : Tx → Result Bytes (Unit {0})
  pub contract_call : (chain_id : ℕ) → Call → Node → Result Bytes (List Returned) × Node
  pub transact : Tx → Node → Result Bytes ℕ × Node
  pub wait_mined : ℕ → Node → Result Bytes Receipt × Node
  pub now : Node → ℕ

pub record World (Node : Type 0) : Type 0 where
  pub node : Node
  pub sent : List Tx

abbrev pub Io : Type 0 → Type 0 → Type 0
Io Node A = World Node → Result Error A × World Node

module _ {Node A : Type 0} where
  unfoldable pub pure : A → Io Node A
  pure a w = (ok a, w)

  unfoldable pub fail : Error → Io Node A
  fail e w = (err e, w)

  -- a pure step that may fail
  unfoldable pub lift : Result Error A → Io Node A
  lift r w = (r, w)

module _ {Node A B : Type 0} where
  abbrev pub continue : Result Error A → (A → Io Node B) → Io Node B
  continue (ok a) f w = f a w
  continue (err e) f w = (err e, w)

  infixl 10 ◌>>=◌
  unfoldable pub ◌>>=◌ : Io Node A → (A → Io Node B) → Io Node B
  ◌>>=◌ m f w = let (r, w') = m w in continue r f w'

module _ {Node A : Type 0} where
  -- `if v, err := m; err == nil { ... }`: the error becomes a value
  abbrev attempted : Result Error A × World Node → Result Error (Result Error A) × World Node
  attempted (r, w) = (ok r, w)

  abbrev labelled : Context → Result Error A × World Node → Result Error A × World Node
  labelled c (ok a, w) = (ok a, w)
  labelled c (err e, w) = (err (wrapped c e), w)

  -- the error of a step, wrapped
  unfoldable pub label : Context → Io Node A → Io Node A
  label c m w = labelled c (m w)

  unfoldable pub attempt : Io Node A → Io Node (Result Error A)
  attempt m w = attempted (m w)

module _ {Node A : Type 0} where
  -- a question that signs nothing, and its answer
  unfoldable pub observe : (Node → A × Node) → Io Node A
  observe f w = let (a, node) = f w.node in (ok a, record w { node = node })

abbrev pub relabel {ℓ} : {A : Type ℓ} → Context → Result Bytes A → Result Error A
relabel c (ok a) = ok a
relabel c (err e) = err (wrapped c (external e))

module _ (cl : Client) where
  open cl use {Node, contract_call, transact, wait_mined, now}

  -- contract.Call
  unfoldable pub call_contract : (chain_id : ℕ) → Context → Call → Io Node (List Returned)
  call_contract chain_id c q w =
      let (r, node) = contract_call chain_id q w.node in (relabel c r, record w { node = node })

  -- contract.Transact, and SendTransaction of a transaction that sign_tx accepted: the transaction is signed and handed to the node, whatever it answers
  unfoldable pub send : Context → Tx → Io Node ℕ
  send c tx w =
      let (r, node) = transact tx w.node in
      (relabel c r, record { node = node; sent = w.sent ++ tx ∷ [] })

  -- bind.WaitMined
  unfoldable pub wait : Context → ℕ → Io Node Receipt
  wait c tx w = let (r, node) = wait_mined tx w.node in (relabel c r, record w { node = node })

  -- time.Now().Unix()
  unfoldable pub unix_now : Io Node ℕ
  unix_now w = (ok (now w.node), w)
