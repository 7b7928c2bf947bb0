-- ===== src/Dex.antt =====
-- src/spellbook/dex.py: what the daemon sends to the exchanges, and how it reads what they send back.
-- A text is the list of its code points; `none` is a DexError.
pub mod Tokens
pub mod Numbers
pub mod Pins
pub mod Words
pub mod Calls
pub mod Settler
pub mod Layout
pub mod V4Swap
pub mod Commands
pub mod Router
pub mod Swap
pub mod Validate
pub mod Liquidity
pub mod Positions
pub mod V4Positions
pub mod Builders
pub mod V4Builders
