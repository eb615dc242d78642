-- ===== src/KvSrv.antt =====
-- The key/value server of kvsrv1, its clerk, and the model it is tested against (models1).
pub mod Rpc
pub mod Server
pub mod Clerk
pub mod Model
mod Examples
