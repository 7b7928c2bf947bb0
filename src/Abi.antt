-- ===== src/Abi.antt =====
-- src/spellbook/abi.py: the contract ABI.
pub mod Values
pub mod Types
pub mod Encode
pub mod Decode
pub mod Stands
pub mod Singles
pub mod Layout
pub mod Arrays
pub mod Nested
pub mod Positions
pub mod RoundTrip
pub mod Widths
pub mod Arguments
