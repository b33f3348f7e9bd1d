-- ===== src/Rpc.antt =====
-- crates/vdsm-rpc: the JSON-RPC envelopes and the dispatcher of verbs.
pub mod Protocol
pub mod Dispatch
