-- ===== src/Lib.antt =====
-- The distributed systems of this repository: a key/value server with a clerk that retries and a
-- lock on top of it, Raft, the assignment of shards to groups, MapReduce with two applications, the
-- simulated network, and the tester's groups, clients, connections, checks and annotations.
--
-- Files and code (paths from the repository's root):
--   Prelude: Boolean tests, lists over native numbers, Go maps as association lists, sorting, sums.
--   KvSrv/Rpc, KvSrv/Server: src/kvsrv1/rpc/rpc.go and src/kvsrv1/server.go. A handler runs under
--     the server's mutex, so it is a function of the state.
--   KvSrv/Clerk: src/kvsrv1/client.go. Get and Put retry over a schedule: each attempt has the
--     Puts of other clerks that come before it, and is lost, executed without a reply, or answered.
--   KvSrv/Model: src/models1/kv.go, the model that histories are checked against; of Partition, what
--     it gathers for one key.
--   Lock: src/kvsrv1/lock/lock.go, cut at its RPCs. Acquire and Release are the positions of a
--     client (Pc) and `exec` runs it through its next RPC; Lock/System interleaves any clients.
--   Raft: src/raft1/raft.go and the messages of src/raftapi/raftapi.go. Raft/Vote is RequestVote,
--     Raft/Append is AppendEntries, Raft/Election is candidateLoop, Raft/Leader is
--     singleHeartBeat, Start and GetState, Raft/Apply is commitIndexLoop; each is cut where the code
--     releases the mutex. Raft/Node has the critical sections of a server as events, Raft/Quorum a
--     cluster with the votes it gave, Raft/Restart a server made again from its persister.
--   ShardCfg: src/shardkv1/shardcfg/shardcfg.go; ShardCfg/Change has Join, Leave and what
--     reads a configuration.
--   Mr/Coordinator: src/mr/coordinator.go and src/mr/rpc.go. Channels are lists with the capacity
--     that the code gives them; a step is one send or receive, and `none` one that would block. A
--     case of the controller is one step with its send, which does not go while that would block.
--   Mr/Worker: src/mr/worker.go, the data of a map task and of a reduce task.
--   Mr/Sequential: src/main/mrsequential.go, and a whole job of the workers beside it, each task run
--     once and with no coordinator; Mr/Apps: the
--     word count and the indexer, src/mrapps/wc.go and src/mrapps/indexer.go.
--   Net: src/labrpc/labrpc.go, the network's maps and processReq; Net/Server has the dispatch of
--     a server. The handler of a call that is given up takes effect within the call, where the
--     code may run it to its end later. Net/Calls is ClientEnd's Call and Forward, Net/Delivered relates a call to the
--     ways that KvSrv/Clerk lists.
--   Persister: src/tester1/persister.go.
--   RaftTest: src/raft1/test.go, the tester's copies of the logs and its checks; RaftTest/Leaders has
--     the checks of leaders and terms, RaftTest/Applier and RaftTest/Snapshots the appliers of
--     src/raft1/server.go with the proxies of src/raft1/proxy.go. The applier takes the messages that
--     Raft/Apply sends, and the fates of its RPCs.
--   Tester: src/tester1/group.go and src/tester1/srv.go, the ends between the servers of a group and
--     their partitions; Tester/Groups is what is done to all of a group, and Tester/Clients is
--     src/tester1/clnts.go. All act on the network of Net.
--   KvTest: src/kvtest1/kvtest.go, what the tests do with a clerk; KvTest/Direct has the clerk whose
--     RPCs all arrive at KvSrv/Server, KvTest/Partitioner splits a group of Tester. KvTest/Appends
--     is CheckAppends, and OneClientAppend cut at its RPCs to KvSrv/Server over a lossy network.
--     KvTest/OpLog is the log of src/kvtest1/porcupine.go, of calls whose RPCs interleave.
--   Demux: src/tester1/demux, calls over one connection. Demux/System has the goroutines that share
--     the map of calls (callmap.go, dmxclnt.go) and those of the server (dmxsrv.go) as a step
--     relation, Demux/Transport the messages as bytes (transport.go).
--   Annotate: src/tester1/annotation.go; Annotate/Faults has what the framework reports of checkers
--     and of servers that are cut off, partitioned, shut down and started again, and Annotate/Current
--     any sequence of the latter.
--
-- How code is rendered. A panic, a log.Fatal and a send that blocks are `none` or a value of their
-- own. Versions are uint64 and wrap at 2^64, the coordinator's ids are int32 and wrap at 2^32, and
-- theorems that need room say so. Terms and indexes of Raft are Go ints, taken as unbounded
-- natural numbers, and -1 is `none`; a next index that would become -1 stays 0, which is the
-- argument of the same panic. Times are numbers that the caller gives.
-- Channels of a job without files, which have no buffer, are outside the model. labgob, encoding/json,
-- hash/fnv, unicode, strconv, gob and sort.Sort are parameters. The tester's error strings are a data type
-- without the values that they print, and the polling by the clock of its loops is left out. The
-- loop of Rebalance has fuel, the square of the number of shards and one more, which is enough
-- because a move lowers the sum of the squares of the loads. The loops of KvTest and the
-- reading of a connection have a unit of fuel for each turn or message. The goroutines of Demux, the
-- clients of KvTest/Appends and the calls of KvTest/OpLog are step relations, and `Reach n` is what
-- they reach in `n` steps; a bound on `n` keeps tags and versions from wrapping.
--
-- Not modelled: the processes of the test harness and the drawing of histories, labgob, sockets and
-- files, the skeletons of kvraft1 and shardkv1, the timers of heartbeats, Raft's own Snapshot, delays
-- of the network, and, for Raft, which messages are under way: a server may be sent any message at
-- any time.
pub mod Prelude
pub mod KvSrv
pub mod Lock
pub mod Raft
pub mod ShardCfg
pub mod Mr
pub mod Net
pub mod Persister
pub mod RaftTest
pub mod Tester
pub mod KvTest
pub mod Demux
pub mod Annotate
