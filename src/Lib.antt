-- ===== src/Lib.antt =====
-- Nearby, an in-memory vector cache with a text protocol: its Go packages under internal/ and pkg/.
--
-- A request travels so: protocol.Parse cuts the bytes of a connection into commands, server checks
-- the client's login and picks a handler, which checks the arguments and calls the store, the answer
-- is serialized, and a command that writes is appended to the append-only file by Command.String; at
-- start persist.ReplayAOF gives those lines back. A sweep removes expired entries every 100 ms.
--
-- Files and code:
-- - Common and its children: shared names, Boolean tests, lists, Go strings as lists of bytes, Go
--   maps as association lists with loops over them (Common/Dict), int and int64 (Common/Int).
-- - Store: internal/store. Store.antt has the types of store.go and vector.go, Store/Kv.antt the
--   key-value operations (set is Set, get is Get, and so on), Store/Vector.antt those of the
--   namespaces (vset_with_ttl is VSetWithTTL, vmset is VMSet, and so on), Store/Listing.antt
--   VNSList and TotalVectors, Store/Sweep.antt SweepExpired. Their children hold the proofs, over
--   the view of a client: the live entry of a key at a time.
-- - Protocol: internal/protocol. Tokenize is tokenize of parser.go, Parse is Parse with parseLine,
--   Command is Command.String and Response is Serialize of types.go.
-- - Persist: internal/persist/aof.go. Persist.antt has Write and ReplayAOF over the bytes of the
--   file, Persist/Crc.antt the checksum of hash/crc32.
-- - Server: internal/server. Server/Kv.antt has the handlers of handlers_kv.go,
--   Server/Dispatch.antt ExecuteCommand (execute_command) with AUTH, dispatch, and the batch loop
--   of handleConnection (run_batch) of server.go; its child Session has the proofs.
--   Server/Admin.antt has VEXPIRE and VNS of handlers_admin.go and VCOUNT of handlers_vector.go,
--   Server/Info.antt INFO, Server/Vector.antt VGET and VDEL. In Dispatch the handlers other than
--   those of Kv and PING are the fields of the record Handlers; sha256 is a parameter.
--   Server/Recovery.antt has the replay of the append-only file in cmd/server/main.go.
-- - Server/Vector: VSET, VMSET and VSIMILARITY of handlers_vector.go. Set, Batch and Similar read the
--   words (with Server/Words.antt), Write and Query act on the store and on the index of the
--   namespace; Request, ExKey, Sent and Decoded hold proofs on the words. Server/VectorIndex.antt
--   has VINDEX of handlers_hnsw.go; its children hold the proofs on an index that agrees with the
--   store.
-- - Heap: container/heap over a slice, as internal/similarity and internal/hnsw use it; the index of
--   up at least halves and that of down grows, so the length of the heap is enough fuel for both.
-- - Similarity: internal/similarity. CosineSimilarity of cosine.go and TopK of engine.go; the worker
--   pool is a function that puts its results in the order of their arrival. The arithmetic of
--   float32 is a parameter, its comparisons are written out on the bit patterns.
-- - Hnsw: internal/hnsw. Hnsw/Snapshot.antt has Snapshot and Hnsw/Snapshot/Load.antt LoadSnapshot
--   (snapshot.go) over the bytes of the file, with encoding/json as a parameter. Hnsw.antt has the
--   index and its nodes (index.go, node.go), Delete, the Less of the two heaps (heap.go) and
--   CosineDistance (distance.go); Hnsw/Layer.antt searchLayer, Hnsw/Insert.antt Insert and
--   pruneNeighbor, Hnsw/Search.antt Search (search.go), Hnsw/Neighbors.antt the choice of
--   neighbours (neighbors.go). Insert works on the list of nodes by their ids, which stand for the
--   pointers. Hnsw/Keys.antt and Hnsw/Contents.antt hold the index as a map from keys,
--   Hnsw/Insert/Shape.antt the shape of its graph; the other children of Layer, Insert, Neighbors
--   and Search hold the proofs. Common/Run.antt has the results of code that can panic.
-- - Client: pkg/client. Client.antt has readResponse of client.go; a reader is the bytes that arrive
--   before it ends, and the number of the bytes is enough fuel for the arrays in arrays.
--   Client/Commands.antt has the words that the methods send, Client/Answers.antt what they make of
--   the answers, and Client/Text.antt the proofs on the text of a command.
--
-- Conventions. A time and a duration are nanoseconds in the integers; every reading of the clock
-- is an argument. A float32 is its bit pattern. Each region under a lock is one step; Get has its
-- two regions apart. A map is a list with each key once, and a range over it goes through the
-- list. strings.TrimSpace knows the white space of Unicode in UTF-8, strings.ToUpper is that of
-- ASCII text. The outer loop of Parse runs on fuel, one more than the bytes that are left, since
-- every round takes a byte at least. searchLayer runs on one round more than there are nodes,
-- since a node is a candidate at most once; the loops over a heap run on its length. In the index
-- a call of Insert, Delete or Search is one step, a limit or a width is not negative, and the
-- level that randomLevel draws is an argument, in a handler as a function of the place of the
-- entry. The ids wrap around at 2^32, as uint32 does. What strconv and fmt make of a float is a
-- parameter, the record Numerals; a panic of the index is one of the handler. A handler of
-- Dispatch can panic: that ends a batch, and in the replay the process. An int of +Inf is a
-- negative number, as on amd64, so an index with M = 1 panics when it draws a level. The seconds
-- that TTL reports are whole, without the rounding of their float64 from 2^24 seconds on.
--
-- Left out: an M of 2^62 and more, where 2 * M wraps around, and the sizes that make refuses, in
-- selectNeighborsHeuristic for an M above 2^46, in Search for a K above 2^43 and in VMSET for a
-- dimension or a count near 2^63. Memory does not run out.
--
-- Not modelled: sockets, TLS, files and so SaveSnapshots and LoadSnapshots of the server, the
-- connection loop around a batch, two calls on one index that interleave, the pool of the client,
-- and of the programs under cmd and examples all but the replay at the start of the server.
pub mod Client
pub mod Common
pub mod Heap
pub mod Hnsw
pub mod Persist
pub mod Protocol
pub mod Server
pub mod Similarity
pub mod Store
