-- ===== src/Socket/Connect.antt =====
-- Creating, registering, connecting and closing a socket.
use mtcp_lua.Base.{
  ℕ, Bool, true, false, not, ◌&&◌, ◌||◌, Option, none, some, List, [], ◌∷◌, ◌==◌, if◌then◌else◌,
}
use mtcp_lua.Base.Int.{ℤ, pos, negsuc, ltb_ℤ}
use mtcp_lua.RbTree.{Ptr, null, update}
use mtcp_lua.Timer.{Timers, event_add_timer, event_del_timer, set_timedout}
use mtcp_lua.Socket.State.{
  EpollOp, ctl_add, ctl_del, ctl_mod, Interest, no_events, epollout, mtcp_socket,
  mtcp_setsock_nonblock, mtcp_connect, mtcp_getsockopt, mtcp_close, mtcp_epoll_ctl, os_close,
  Answers, eagain, einprogress, expect_arguments, connect_timeout_text, connect_successful,
  invalid_ip_address, invalid_port, create_socket_failed, set_noblock_failed, connect_failed,
  mtcp_epoll_ctl_failed, nil_value, boolean, userdata, text, Outcome, raises, returns, yields,
  resumes, finishes, faults, Handler, connect_handler, SocketCtx, World, put, call, is_minus_one,
  is_zero, is_negative, msec_of_int,
}

-- `mtcp_lua_socket_tcp`
abbrev pub fresh_socket : SocketCtx
fresh_socket = record {
  fd = negsuc 0;
  connected = 0;
  busy = 0;
  active = 0;
  vm = null;
  vm_ctx = null;
  connect_timeout = pos 6000;
  read_timeout = pos 6000;
  write_timeout = pos 6000;
  sockaddr = record { address = 0; port = 0 };
}

unfoldable pub tcp : Ptr → ℕ → World → Outcome × World
tcp sctx argc w =
    if argc == 0
    then (returns (userdata sctx ∷ []), put sctx fresh_socket w)
    else (raises expect_arguments, w)

-- A port that has passed the checks.
abbrev pub port_number : ℤ → ℕ
port_number (pos n) = n
port_number (negsuc n) = 0

abbrev pub with_timers : World → Option Timers → Option World
with_timers w none = none
with_timers w (some ts) = some (record w { timers = ts })

-- The event of a thread that starts to wait.
abbrev pub set_event : Ptr → Ptr → Handler → World → World
set_event ev sctx h w = record w {
  timers = set_timedout ev false w.timers;
  ev_data = update w.ev_data ev sctx;
  ev_handler = update w.ev_handler ev h;
}

abbrev pub yield_on : Option World → Option (Outcome × World)
yield_on none = none
yield_on (some w) = some (yields, w)

module _ (answers : Answers) (s fuel : ℕ) where
  -- The operation that is passed on: a second addition modifies.
  abbrev pub effective_op : EpollOp → ℕ → EpollOp
  effective_op ctl_add active = if active == 0 then ctl_add else ctl_mod
  effective_op ctl_del active = ctl_del
  effective_op ctl_mod active = ctl_mod

  abbrev pub active_after : EpollOp → ℕ
  active_after ctl_add = 1
  active_after ctl_del = 0
  active_after ctl_mod = 1

  -- `mtcp_lua_epoll_ctl`: whether it returns 0.
  unfoldable pub epoll_ctl : Ptr → EpollOp → Interest → Ptr → World → Bool × World
  epoll_ctl sctx op event ev w =
      let c = w.sockets sctx in
      let op' = effective_op op c.active in
      let w1 = call (mtcp_epoll_ctl op' event c.fd ev) w in
      if is_zero (answers.result w1.calls)
      then (true, put sctx (record c { active = active_after op' }) w1)
      else (false, w1)

  -- `mtcp_lua_socket_tcp_close_helper`
  unfoldable pub close_helper : Ptr → World → World
  close_helper sctx w =
      let c = w.sockets sctx in
      let w1 = if c.active == 0 then w else (epoll_ctl sctx ctl_del no_events null w).1 in
      if is_minus_one c.fd then w else call (mtcp_close c.fd) w1

  -- `mtcp_lua_socket_tcp_close` and `mtcp_lua_socket_tcp_gc`: with a socket open, the context that
  -- the socket names is read.
  unfoldable pub close : Ptr → World → Outcome × World
  close sctx w =
      let c = w.sockets sctx in
      if not (is_minus_one c.fd) && (c.vm_ctx == null)
      then (faults, w)
      else (returns (boolean true ∷ []), close_helper sctx w)

  -- From the registration on.
  unfoldable pub await_connect : Ptr → Ptr → World → Option (Outcome × World)
  await_connect ctx sctx w =
      let r = epoll_ctl sctx ctl_add epollout ctx w in
      let w1 = r.1 in
      let w2 = close_helper sctx w1 in
      if r.0
      then yield_on (
          with_timers w1 (
            event_add_timer s fuel (answers.clock w1.calls) ctx
              (msec_of_int ((w1.sockets sctx).connect_timeout)) w1.timers))
      else some (
        returns (nil_value ∷ text mtcp_epoll_ctl_failed ∷ []),
        put sctx (record (w2.sockets sctx) { fd = negsuc 0; connected = 0 }) w2,
      )

  -- From `mtcp_connect` on, with the new socket `fd`.
  unfoldable pub connect_fd : Ptr → Ptr → Ptr → ℤ → World → Option (Outcome × World)
  connect_fd l ctx sctx fd w =
      let w1 = call (mtcp_connect fd) w in
      let c = w1.sockets sctx in
      let err = answers.errno w1.calls in
      if is_zero (answers.result w1.calls)
      then some (returns (boolean true ∷ []), put sctx (record c { fd = fd }) w1)
      else if not (err == einprogress) && not (err == eagain)
      then some (returns (nil_value ∷ text connect_failed ∷ []), close_helper sctx w1)
      else await_connect ctx sctx (
          set_event ctx sctx connect_handler
            (put sctx (record c { fd = fd; vm = l; vm_ctx = ctx }) w1))

  -- From `mtcp_socket` on.
  unfoldable pub open_socket : Ptr → Ptr → Ptr → World → Option (Outcome × World)
  open_socket l ctx sctx w =
      let w1 = call mtcp_socket w in
      let fd = answers.result w1.calls in
      let w2 = call (mtcp_setsock_nonblock fd) w1 in
      if is_negative fd
      then some (returns (nil_value ∷ text create_socket_failed ∷ []), w1)
      else if is_negative (answers.result w2.calls)
      then some (returns (nil_value ∷ text set_noblock_failed ∷ []), w2)
      else connect_fd l ctx sctx fd w2

  abbrev pub close_current : Ptr → World → World
  close_current sctx w =
      let c = w.sockets sctx in if is_minus_one c.fd then w else call (os_close c.fd) w

  -- `mtcp_lua_socket_tcp_connect`
  unfoldable pub connect : Ptr → Ptr → Ptr → ℕ → List ℕ → ℤ → World → Option (Outcome × World)
  connect l ctx sctx argc host port w =
      let w1 = close_current sctx w in
      let c = w1.sockets sctx in
      let w2 = put sctx (record c { sockaddr = record { address = 0; port = 0 } }) w1 in
      let addr = answers.inet_pton_address host in
      let w3 = put sctx (record c { sockaddr = record { address = addr; port = 0 } }) w1 in
      let w4 =
        put sctx (record c { sockaddr = record { address = addr; port = port_number port } }) w1 in
      if not (argc == 3)
      then some (raises expect_arguments, w)
      else if not (answers.inet_pton_ok host)
      then some (returns (nil_value ∷ text invalid_ip_address ∷ []), w2)
      else if ltb_ℤ port (pos 0) || ltb_ℤ (pos 65535) port
      then some (raises invalid_port, w3)
      else open_socket l ctx sctx w4

  abbrev pub connect_error : World → ℕ
  connect_error w =
      if is_minus_one (answers.result w.calls)
      then answers.errno w.calls
      else answers.so_error w.calls

  -- The answer to a connection that is ready.
  unfoldable pub connect_ready : Ptr → Option World → Option (Outcome × World)
  connect_ready sctx none = none
  connect_ready sctx (some w) =
      let c = w.sockets sctx in
      let w1 = call (mtcp_getsockopt c.fd) w in
      if connect_error w1 == 0
      then some (
        resumes c.vm_ctx (boolean true ∷ text connect_successful ∷ []),
        put sctx (record c { connected = 1 }) w1,
      )
      else some (finishes, w1)

  -- `mtcp_lua_socket_tcp_connect_handler`
  unfoldable pub run_connect_handler : Ptr → World → Option (Outcome × World)
  run_connect_handler ev w =
      let sctx = w.ev_data ev in
      if w.timers.timedout ev
      then some (
        resumes ((w.sockets sctx).vm_ctx) (nil_value ∷ text connect_timeout_text ∷ []),
        (epoll_ctl sctx ctl_del no_events null w).1,
      )
      else connect_ready sctx (with_timers w (event_del_timer s fuel ev w.timers))
