-- ===== src/Socket.antt =====
-- mtcp_lua_socket_tcp.c: the sockets that a Lua script connects, writes to and reads from.
--
-- A function called from Lua gets the Lua state `l`, the thread's context `ctx` that
-- `mtcp_lua_thread_get_ctx` finds, the socket `sctx`, the number of arguments, and the arguments.
-- Arguments have the types that the `luaL_check` functions accept. Printing is left out.
-- A result is `none` only when a loop runs out of its `fuel`.
pub mod State
mod Connect
mod Transfer
pub mod Contract
unfoldable pub use State.*
unfoldable pub use Connect.*
unfoldable pub use Transfer.*
