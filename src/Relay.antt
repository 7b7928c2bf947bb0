-- ===== src/Relay.antt =====
-- relay/peer.py and relay/server.py: the connections to Chia full nodes, and the server in front of them.
pub mod Peer
pub mod Manager
pub mod Server
