-- ===== src/Lib.antt =====
-- redis-c: a key-value server and its client, over a length-prefixed binary protocol.
--
-- The program. The server (src/server.cpp) keeps its keys in a hash map of two tables that is
-- resized progressively (src/hashtable.h, src/hashtable.cpp). A connection (`struct Conn`) collects
-- bytes, parses requests (`parse_req`), hands them to the commands, which write replies in a
-- type-length-value scheme (the `out_` functions of src/utils.h), and sends these. The client
-- (src/client.cpp) packs a command (`send_req`), and reads and walks the reply (`read_res`,
-- `on_response`), over a socket with `write_all` and `read_full` (src/utils.h). A sorted set
-- (src/zset.h, src/zset.cpp) keeps its tuples in an AVL tree by score and name (src/avl.h,
-- src/avl.cpp) and in a hash map by name. The thread pool (src/thread_pool.h, src/thread_pool.cpp)
-- is where the server has large sets disposed of.
--
-- The files.
--   Base and its children: the names and helpers that the others share; Base/Outcome has `Run`, how
--     a call ends: `ok`, `abort` (a failed assert), `fault` (undefined behaviour), `out_of_fuel`.
--   HashTable: `HTable` and the `h_` functions. Chain and Table hold the facts about chains and the
--     invariant `IsTable`, Scan is about `h_scan`.
--   HashMap: `HMap` and the `hm_` functions. Invariant states `IsMap`; Resize is about
--     `hm_help_resizing`, Growth and Insert about `hm_insert`, Methods about the other functions,
--     RoundTrip and Session about calls in sequence.
--   Wire: `memcpy` of words into and out of byte buffers.
--   Io: `write_all` and `read_full`.
--   Request: `parse_req`; Format is the layout of a request, Sound and Complete compare the two.
--   Reply: the `out_` functions; Value has the values that replies stand for.
--   Client: `send_req`, `on_response` and `read_res`. Send and Exchange are about `send_req`, the latter
--     with the parser of the server; Receive is about `on_response` on any bytes, Overflow about its
--     length test, RoundTrip and Result about replies of the server.
--   Conn: `struct Conn` and `connection_io` with the functions behind it. Stream says what serving a
--     stream of requests in order means; Flush is about `state_res`, Framing, Serve and Answer about
--     `try_one_request`, Fill about `try_fill_buffer`, Event about `connection_io`, Stall about a
--     request that it leaves waiting.
--   Keys: `do_get`, `do_set`, `do_del` and `do_keys` on the key space. Compare is about `entry_eq`,
--     Replace about a write to an entry in place; Refine has the finite map that the key space stands
--     for, and `do_get`, Update `do_set` and `do_del`, Listing `do_keys`.
--   Server: `do_request`, on the key space and the sets. Data says what small data is, SortedSets and
--     Query that the commands on sorted sets return on it; Ready is about `do_request`, and puts it
--     behind the connections.
--   Avl: the functions on AVL trees, on a store of nodes. Tree has the trees behind the pointers, and
--     Link says when a store holds one; Apart, Child and Above are about writes to a store.
--     RotateRight, RotateLeft, Fix and Rebalance say what the functions do to the tree, Height,
--     Balanced and Restored are about its balance, Delete and its children about `avl_delete`, Place,
--     Descend and Offset about `avl_offset`.
--   ZSet: the sorted set. Order and Sorted are about `zless`, Hang, Insert and Invariant about
--     `tree_add`, Update about `zset_update`, Query about `zset_query`, Names about `zset_lookup`,
--     Size about the nodes of tree and hash map, Scores and Add about `zset_add`, Pop about `zset_pop` and `zset_dispose`.
--   Sets: `do_zadd`, `do_zrem`, `do_zscore` and `do_zquery`; Listing is about the rows of `do_zquery`.
--   ThreadPool: `worker` and `thread_pool_queue` as a step relation; Safe is about what they
--     reach, Wakeup about the wake-ups.
--   Timers: the heap of expiry times, `entry_set_ttl` and `next_timer_ms`, which Next is about.
--   The Tests modules run the code on small inputs.
--
-- Conventions. A machine word is a natural number with its wrap-around written out (`u32`, `u64`);
-- bytes are numbers below 256, an `int64_t` or a `double` is its 64 bits. The nodes of the hash
-- table, intrusive in the source, are a type that has a hash code; a chain is a list, a pointer to a
-- link is a bucket and an index. A comparison of keys is an argument, and the theorems that need it
-- say that it accepts a node only if the hash codes agree, which `hcmp` of src/zset.cpp and
-- `entry_eq` of src/server.cpp test first. The kernel's answers to `read` and `write` are arguments.
-- What `do_request` of src/server.cpp makes of a command is a parameter of Conn, which Server fills,
-- with a condition on the server's data that counts the requests that may still come. A `printf` of
-- `%.*s` that would read past the reply is a fault, since what stands there is not the client's.
--
-- The nodes of a tree are addresses, which are numbers, in a store that gives the links of each; the
-- score and name of a node are in stores beside it. An `int64_t` offset or limit stands for itself
-- plus 2 ^ 63, so that the order of the numbers is theirs. Two scores are compared by their place in
-- the order of the doubles, `score_rank`; NaN does not occur, since `str2double` refuses it.
--
-- Fuel. `resize_loop` takes the rounds that its loop may go: 129 are enough whenever the loop ends,
-- since at most K_RESIZING_WORK = 128 rounds move a node. `on_response` takes the depth of its
-- recursion: one more than the bytes of the reply is enough, since an array has a header.
-- `connection_io` takes one number for all of its loops: more than the size of a buffer, since each
-- request takes bytes out of it, and than the answers of the socket, one of which is used up by every
-- round. In a tree the fuel is that of a walk from a node to the root and back: more than twice the
-- nodes is enough, and for the rows of a query three times. The other loops are recursions on their
-- data.
--
-- Not modelled: allocation and its failure, `free`, messages on standard error, the text formats of
-- numbers (`strtod` is an argument), sockets beyond the bytes they move, what a work of the thread
-- pool does, and, so far, the event loop of the server, the idle list, `process_timers`, `do_expire`
-- and `do_ttl`, and `entry_del`, which hands large sets to the thread pool.
pub mod Avl
pub mod Base
pub mod Client
pub mod Conn
pub mod HashMap
pub mod HashTable
pub mod Io
pub mod Keys
pub mod Reply
pub mod Request
pub mod Server
pub mod Sets
pub mod ThreadPool
pub mod Timers
pub mod Wire
pub mod ZSet
