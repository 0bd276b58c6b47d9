-- ===== src/Lib.antt =====
-- LazySwap is a wallet and swap client for EVM chains: a library of Go packages under internal/ behind a
-- terminal interface, a command line and a server of MCP tools for agents. This development models the
-- packages that decide what is signed and what is shown for it.
--
-- The parts, and the files that model them:
--   internal/balance/format.go         Balance (amounts of a token as text, and back)
--   internal/chain/config.go           Chain (the registry of chains and their tokens)
--   internal/swap/resolve.go           Swap/Token (symbols, addresses, decimals)
--   internal/swap/minoutput.go, quote.go and internal/dex/uniswap_v2.go
--                                      Swap/Quote (prices, and the least output of a swap)
--   internal/swap/executor.go          Swap/Executor (approvals and the three swap calls)
--   internal/swap/flow.go, flow_quote.go, flow_execute.go
--                                      Swap/Flow (a swap of an amount in dollars)
--   internal/thorchain                 Thorchain/Provider (quotes and vaults of THORnode),
--                                      Thorchain/Executor (deposits)
--   internal/swap/flow_thorchain.go    Swap/Thorchain (a swap of dollars to Bitcoin)
--   internal/selfupdate                Selfupdate/Release (the choice of a release),
--                                      Selfupdate/Install (its check, and the new binary)
--   internal/tui/overlays/seedoverlay/seed.go and swapoverlay/swap.go
--                                      Tui/Seed, Tui/SwapOverlay (their state machines)
--   internal/tui/screens/login         Tui/Login (the rules for a password, the screen, and the two
--                                      commands that create a password and check it)
--   internal/crypto/crypto.go          Crypto (secrets sealed under a password)
--   internal/wallet                    Wallet (choice of a wallet, password check, decryption)
--   internal/settings/settings.go      Settings (the preferences in the database)
--   internal/safety                    Safety/Report, Safety/Token, Safety/Checker (risk reports on
--                                      tokens, their scoring, and the cache of them)
--   internal/mcp                       Mcp (options, budget, resolution of a request), Mcp/Trade
--                                      (swap_execute), Mcp/Readers (list_chains, get_wallets,
--                                      get_balances) and Mcp/Tools (the other handlers)
-- Prelude holds what they share, Error the errors of the swap code, Examples the tests.
--
-- A function of the source is a definition of the same name in the spelling of this library: FormatUnits
-- is format_units, Flow.Execute is execute. A Go `(value, error)` is a Result. Code that talks to a node
-- is a state monad (Swap/Io) over what the nodes answer next and the list of the transactions that were
-- handed to them, so that what was signed before an error counts. The handlers of the server take the
-- server's state and return it; a step after a guard is a function of its own. Calls are modelled
-- one after the other; the mutex of the server, which makes each booking of the budget one step, is not.
--
-- Texts are lists of byte codes. ToUpper, ToLower, EqualFold and Fields are those of ASCII; TrimSpace and
-- the loop over the characters of a password read UTF-8, with the tables of package unicode as a
-- parameter. Big integers are the integers pos and negsuc. A float64 is a value of the interface Float64,
-- and no theorem depends on rounding but by a named law: a printed float parses back (HasShortest), and
-- whole numbers up to 2 ^ 53 are exact (HasWholeNumbers). Go's maps are association lists, and the order
-- of an iteration is a parameter where the source iterates. All loops are structural; the digits of a
-- number are taken with the number itself as fuel, which is at least its count of digits.
--
-- The screens of the terminal are functions from a message and a model to a model and a command; what
-- fails with an index out of range is none. Self-update runs on a state that packages os and net/http read
-- and change; its theorem names what package os documents of files (IsFileSystem), and a file that is cut
-- at a limit of bytes is cut in the model too.
--
-- Interfaces stand for go-ethereum (Client), SQLite (Sql), AES-GCM and PBKDF2 (Primitives), the HTTP
-- requests to THORnode (Http), to the token checker and to GitHub with the operating system (Machine),
-- encoding/json, the widgets of Bubble Tea (TextInput, Widgets), package unicode (Unicode), the clock and
-- the random bytes. The tool get_balances takes what the balance service answers as a parameter. Not
-- modelled: the other screens and all views of the terminal interface, the command line, the balance
-- service with its explorers, the creation, import and export of wallets, logs and timeouts; they are I/O,
-- third-party code, or parts that the modelled ones do not call but for that one answer. A JSON number is never NaN, and the
-- amounts of the MCP tools come from JSON.
pub mod Prelude
pub mod Balance
pub mod Chain
pub mod Float
pub mod Error
pub mod Swap
pub mod Thorchain
pub mod Selfupdate
pub mod Tui
pub mod Crypto
pub mod Wallet
pub mod Settings
pub mod Safety
pub mod Mcp
pub mod Examples
