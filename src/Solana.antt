-- ===== src/Solana.antt =====
-- src/spellbook/solana.py: the texts of addresses and block hashes.
pub mod Base58
