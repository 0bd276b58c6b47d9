-- ===== src/Swap.antt =====
-- internal/swap: quoting and executing swaps on a Uniswap V2-like router.
pub mod Io
pub mod Token
pub mod Quote
pub mod Executor
pub mod Flow
pub mod Thorchain
