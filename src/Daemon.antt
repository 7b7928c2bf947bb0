-- ===== src/Daemon.antt =====
-- src/spellbook/daemon.py: the policy daemon. The values and the state, the handlers by the way that a
-- request takes, and, in the modules named for what they prove, the properties.
pub mod Data
pub mod State
pub mod Legs
pub mod Fund
pub mod Spend
pub mod Handle
mod Induction
pub mod Sound
pub mod Restart
pub mod Access
pub mod Once
pub mod Caps
pub mod Human
pub mod Unresolved
pub mod SignWindow
