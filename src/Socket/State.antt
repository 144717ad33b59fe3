-- ===== src/Socket/State.antt =====
-- The state that mtcp_lua_socket_tcp.c works on: the sockets, the threads' events, and the calls of
-- mTCP and the system. The answers of those calls are a parameter, which may depend on all calls
-- made so far, the latest first.
use mtcp_lua.Base.{ℕ, suc, ◌-◌, ◌%◌, ◌^◌, Bool, true, false, List, ◌∷◌, ◌==◌, if◌then◌else◌}
use mtcp_lua.Base.Int.{ℤ, pos, negsuc}
use mtcp_lua.RbTree.{Ptr, update}
use mtcp_lua.Timer.{Timers}

pub data EpollOp : Type 0 where
  ctl_add : EpollOp
  ctl_del : EpollOp
  ctl_mod : EpollOp

-- The events of a registration, which is always edge-triggered.
pub data Interest : Type 0 where
  no_events : Interest
  epollin : Interest
  epollout : Interest

-- The calls of mTCP and of the system. `os_close` is `close`, which knows no mTCP socket.
pub data Call : Type 0 where
  mtcp_socket : Call
  mtcp_setsock_nonblock : ℤ → Call
  mtcp_connect : ℤ → Call
  mtcp_getsockopt : ℤ → Call
  mtcp_write : ℤ → List ℕ → Call
  mtcp_read : ℤ → ℕ → Call
  mtcp_close : ℤ → Call
  mtcp_epoll_ctl : EpollOp → Interest → ℤ → Ptr → Call
  os_close : ℤ → Call

-- What the calls answer: the returned number, `errno`, the bytes of the buffer, the value of
-- `SO_ERROR`; the milliseconds of the clock; and whether and as what `inet_pton` reads an address.
pub record Answers : Type 0 where
  pub result : List Call → ℤ
  pub errno : List Call → ℕ
  pub buffer : List Call → List ℕ
  pub so_error : List Call → ℕ
  pub clock : List Call → ℕ
  pub inet_pton_ok : List ℕ → Bool
  pub inet_pton_address : List ℕ → ℕ

abbrev pub eagain : ℕ
eagain = 11

abbrev pub einprogress : ℕ
einprogress = 115

-- The literals that the code passes to Lua.
pub data Message : Type 0 where
  expect_arguments : Message
  connect_timeout_text : Message
  connect_successful : Message
  invalid_ip_address : Message
  invalid_port : Message
  create_socket_failed : Message
  set_noblock_failed : Message
  connect_failed : Message
  mtcp_epoll_ctl_failed : Message
  socket_not_connected : Message
  write_socket_failed : Message
  recv_timedout : Message
  recv_failed : Message
  closed : Message
  exceed_limit : Message
  read_socket_failed : Message
  invalid_sleep_duration : Message
  no_context : Message

pub data Value : Type 0 where
  nil_value : Value
  boolean : Bool → Value
  text : Message → Value
  bytes : List ℕ → Value
  userdata : Ptr → Value

-- How a function ends: with a Lua error, with results, with a yield, with `mtcp_lua_run_thread` on
-- a thread and its arguments, without resuming anything, or with an access through `NULL`.
pub data Outcome : Type 0 where
  raises : Message → Outcome
  returns : List Value → Outcome
  yields : Outcome
  resumes : Ptr → List Value → Outcome
  finishes : Outcome
  faults : Outcome

pub data Handler : Type 0 where
  no_handler : Handler
  timer_handler : Handler
  connect_handler : Handler
  recv_handler : Handler

pub record SockAddr : Type 0 where
  pub address : ℕ
  pub port : ℕ

-- `mtcp_lua_socket_tcp_ctx_t`
pub record SocketCtx : Type 0 where
  pub fd : ℤ
  pub connected : ℕ
  pub busy : ℕ
  pub active : ℕ
  pub vm : Ptr
  pub vm_ctx : Ptr
  pub connect_timeout : ℤ
  pub read_timeout : ℤ
  pub write_timeout : ℤ
  pub sockaddr : SockAddr

-- The event in a thread's context has the address of the context.
pub record World : Type 0 where
  pub timers : Timers
  pub sockets : Ptr → SocketCtx
  pub ev_data : Ptr → Ptr
  pub ev_handler : Ptr → Handler
  pub calls : List Call

abbrev pub put : Ptr → SocketCtx → World → World
put sctx c w = record w { sockets = update w.sockets sctx c }

abbrev pub call : Call → World → World
call c w = record w { calls = c ∷ w.calls }

-- `fd == -1`
abbrev pub is_minus_one : ℤ → Bool
is_minus_one (pos n) = false
is_minus_one (negsuc n) = n == 0

abbrev pub is_zero : ℤ → Bool
is_zero (pos n) = n == 0
is_zero (negsuc n) = false

abbrev pub is_negative : ℤ → Bool
is_negative (pos n) = false
is_negative (negsuc n) = true

abbrev pub is_positive : ℤ → Bool
is_positive (pos n) = if n == 0 then false else true
is_positive (negsuc n) = false

-- An `int` passed as `msec_t`.
abbrev pub msec_of_int : ℤ → ℕ
msec_of_int (pos n) = n % 2 ^ 64
msec_of_int (negsuc n) = 2 ^ 64 - suc (n % 2 ^ 64)
