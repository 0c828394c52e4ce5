-- ===== src/Types.antt =====
-- src/types.rs: the newtypes of the wire format, one module each.
pub mod SessionId
pub mod ShardIndex
pub mod DataShardCount
pub mod ParityShardCount
pub mod RendezvousSecs
