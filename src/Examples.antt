-- ===== src/Examples.antt =====
-- Concrete inputs for the theorems, and runs of the definitions.
mod Sample
mod Bundle
mod Policy
mod Streamable
mod ChiaSign
mod SeedRole
mod Daemon
mod Relay
mod Abi
mod Server
mod Calldata
mod Dex
mod Swaps
mod Solana
