-- ===== src/Labrpc.antt =====
-- labrpc/labrpc.go: the simulated network. Names of ends and of servers are numbers, and a `*Server`
-- is the number of a server in a store. A string is the list of its bytes. What reflect and labgob
-- make of a method, from the bytes of the arguments to those of the reply, is a function on the state
-- of the receivers. `none` is a panic or `log.Fatalf`.
pub mod Server
pub mod Network
pub mod Calls
pub mod Delivery
pub mod Dead
pub mod Reliable
pub mod Success
pub mod Examples
