-- ===== src/Lib.antt =====
-- mtcp-lua runs Lua scripts on the user-level TCP stack mTCP. `main.c` starts one thread for each
-- core; a thread waits for mTCP's events and for timers, and each of them resumes a Lua coroutine.
-- `mtcp_lua_socket_tcp.c` gives the scripts sockets, whose operations yield with an event and a
-- timer; `event_timer.c` and `event_timer.h` keep the timers of a thread in the red-black tree of
-- `rbtree.c`. `lconf.c` sets DPDK up.
--
-- RbTree: rbtree.c and rbtree.h. The memory is the record `Store`, one function from addresses for
-- each field of `struct rbtree_node`; `rotate`, `rbtree_insert`, `rbtree_delete` and `rbtree_min`
-- are the functions of the same names, with the mirrored halves as one definition over a `Side`,
-- and the loops as functions of their own: `insert_at` is the descent, `insert_loop` and
-- `delete_loop` restore the colours. RbTree/Deletion has the steps of the deletion: a place within
-- a subtree (Graft), the cut of a node (Cut), the replacement (Place, Replace) and the end
-- (Finish). RbTree/Shape says that a memory holds a tree, RbTree/Balance states the red-black
-- rules, and RbTree/Sequence what the tree promises, an ordered sequence of nodes.
--
-- Timer: event_timer.c and event_timer.h. `Timers` is the tree with the flags of the events.
-- Timer/Queue states the ordered queue that the functions keep; Timer/Removal and Timer/Expiry say
-- how timers leave it, and Timer/Rearming what a handler may set.
--
-- Socket: mtcp_lua_socket_tcp.c. `World` has the timers, the sockets, the events and the calls made
-- so far; the answers of mTCP and of the system are a parameter, `Answers`, and may depend on all
-- calls made. The theorems are in the modules below Socket/Contract: Registration on the flag
-- `active`, Waiting on the yields of `connect` and `recv`, Waking on the handlers, and Expiring on
-- timeouts.
--
-- Log: mtcp_lua_log.c, the guards and the positions in the buffer.
--
-- Wget: mtcp_lua.c, a download client that the build does not use; mtcp_lua_thread.c is the same
-- file. `Wget` has the accounting of connections, Wget/Reading the reading of a response,
-- Wget/Events and Wget/Run the loop of a thread, and Wget/Statistics what `DownloadComplete` and
-- `PrintStats` do with the times, and Wget/Program its `main` and `SignalHandler`.
--
-- Dpdk: lconf.c, with the answers of DPDK as a parameter. Mbuf: lmbuf.c, the packet buffers by
-- their addresses. Main: `thread_entry`, `vm_init`, `sleep` and the choice of the cores of main.c;
-- Main/Program is its `main`, and Main/Threads has `new_thread`, `spawn`, `run_thread` and
-- `handle_timer`. What a resumed coroutine does is a parameter there, and so is Lua's state, as the
-- interface `LuaApi`.
--
-- Loops without a bound of their own run on fuel, and a result is `none` only when it runs out, or,
-- in Main/Threads, when a call into Lua does not return. A tree of fewer than 2 ^ m - 1 nodes is
-- less than 2 m high, so that 2 m rounds are enough for each loop over it; `delete_loop` needs two
-- more rounds than its place is deep; the loop of a thread needs ten; the loops of the download
-- client need more rounds than there are flows and than there are reads up to one without data, and
-- a loop that is short of rounds ends as `starved`, never as a normal result.
--
-- Keys and times are 64-bit words with their wrap-around; the signed comparisons read them as
-- `long`. The theorems on timers hold for times less than 2 ^ 63 ms after a base time.
--
-- Not modelled: printing, except what `rbtree_traverse` and `PrintStats` print; the passing of
-- values to and from Lua, except which values they are; ldpdk.c, which only registers functions;
-- `daemonize` and `mtcp_lua_new_state` of main.c, which only call the system and Lua; and the
-- copies of LuaJIT under inc and lib.
pub mod Base
pub mod RbTree
pub mod Timer
pub mod Socket
pub mod Dpdk
pub mod Main
pub mod Log
pub mod Wget
pub mod Mbuf
mod Tests
