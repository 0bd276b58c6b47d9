-- ===== src/Examples.antt =====
-- Runs of the program at concrete inputs: small instances of the interfaces, tests of the
-- definitions, and the theorems applied where their hypotheses hold.
mod Samples
mod Money
mod Storage
mod Risk
mod Swaps
mod Server
mod Bitcoin
mod Screens
mod Login
mod Update
