-- ===== src/Lib.antt =====
-- A verification library of this repository's programs: raft/, a Raft peer with its persistence;
-- raft-lock/, a lock service on top of it; mr/, the coordinator and the tasks of a MapReduce job; bank/,
-- accounts under locks; labrpc/ and labgob/, the network of the tests and its checks; and ws/, two
-- aggregators of weather reports.
--
-- Common: tests on ℕ, lists with indices, maps, texts, `int` as a 64-bit word, runs of a step relation,
-- and the monad of code that may panic.
--
-- Raft: raft/raft.go and raft/persister.go. A peer is the record `Raft` (Raft/State.antt), and each
-- handler is one function on it, since a handler holds the peer's lock from its start to its end;
-- what it sends to goroutines, channels and other peers is part of its result, and `none` is a panic.
-- Raft/Election.antt has `becomeCandidate`, `RequestVote` and the rest of `sendRequestVote` after its
-- call; Raft/Replication.antt has `Start`, `AppendEntries`, the rest of `sendAppendEntries` and
-- `sendHeartBeats`; Raft/Persist.antt has `persist`, `readPersist` and `Make` over persister.go;
-- Raft/Ticker.antt has one round of `ticker`. Raft/Cluster.antt puts peers together: a step is one
-- handler's run at one peer, on a message that was sent, at any time later.
-- Terms and indices are plain numbers; the loops are structural, and the scan for a commit index has
-- as many rounds as there are indices between the commit index and the log's end.
--
-- Lock: raft-lock/. Lock/Store.antt is lockStore.go, Lock/Server.antt is server.go with the types of
-- common.go, Lock/Clerk.antt is clerk.go. The server takes what Raft commits as a list
-- of messages; whether `isLeader`, an event and a clerk's call come back is an input of each round, as
-- is `Kill`; what does not come back, and a send on a full channel, blocks and is an outcome of its
-- own. The retry loop of the clerk is on fuel, for which the number of servers is enough where one
-- of them takes the request.
--
-- Mr: mr/coordinator.go. A handler is a function on the coordinator, which holds its lock throughout;
-- Mr/Coordinator/Invariant.antt has the steps that workers and sleeping goroutines take, in any order.
-- Mr/Job.antt has whole jobs: the loop of `Worker` in mr/worker.go at any number of workers, against the
-- coordinator and the files that they share, with crashes and with tasks given out twice. A run of
-- `DoMap` or of `DoReduce` is one step there.
-- Mr/Worker.antt is `DoMap` and Mr/Reducer.antt is `DoReduce` of mr/worker.go, whose files are a
-- state; the grouping loop is on fuel, for which the number of pairs is enough. Mr/Sequential.antt is
-- mr-main/mrsequential.go.
-- Mr/Apps.antt has the plugins wc.go, indexer.go and credit.go of mr-main/mrapps/, and the files under
-- Mr/Apps/ what a job with wc.go or credit.go writes and what indexer.go makes of runs of `Map` that
-- each walk their map in an order of their own. `digits` has as many rounds as the number is large and
-- one more; each divides by ten.
--
-- Labrpc: labrpc/labrpc.go. Labrpc/Network.antt is the state of the network with the operations of the
-- tests, Labrpc/Server.antt the way from the name of a method to its run, and Labrpc/Calls.antt has
-- any number of `Call`s with the `processReq` of each as a step relation: what the random numbers and
-- the timers choose is left open.
--
-- Bank: bank/bank.go. An operation is a run of one goroutine from a state of all locks, which returns,
-- panics, or blocks on a lock that is held. Balances are 64-bit words.
--
-- Ws: ws/channel_aggregator.go and ws/mutex_aggregator.go as functions of a list of ticks and reports,
-- over any number type for `float64`.
--
-- Labgob: labgob/labgob.go. Labgob.antt is `checkType` on a table of types, for which the number of
-- types is enough fuel, and Labgob/Default.antt is `checkDefault`.
--
-- Not modelled: encoding/gob, whose encoding is a parameter; the test harnesses; time-outs,
-- which are inputs; crashes of peers within a cluster; runs of `DoMap` for one task that mix their
-- writes, within a job; the other plugins and the commands of mr-main/ and the stations of ws/;
-- interleavings of bank operations. The cluster of Raft/Cluster.antt has its own calls, which may be
-- lost or late and run at most once, as Labrpc has them.
pub mod Bank
pub mod Common
pub mod Labgob
pub mod Labrpc
pub mod Lock
pub mod Mr
pub mod Raft
pub mod Ws
