-- ===== src/Streamable.antt =====
-- relay/streamable.py: the Streamable codec of the relay.
pub mod Bytes
pub mod Reads
pub mod Values
pub mod RoundTrips
pub mod Clvm
pub mod Utf8
pub mod Coins
pub mod Messages
