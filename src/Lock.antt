-- ===== src/Lock.antt =====
-- raft-lock/: the lock table of lockStore.go, the server of server.go that applies committed
-- operations to it, and the clerk of clerk.go that retries a request.
pub mod Store
pub mod Server
pub mod Clerk
mod Examples
