-- ===== src/Socket/Transfer.antt =====
-- Writing to a socket, reading from it, and its timeouts.
use mtcp_lua.Base.{
  ℕ, zero, suc, ◌+◌, Bool, true, false, not, ◌&&◌, ◌||◌, Option, none, some, List, [], ◌∷◌, ◌++◌,
  ◌==◌, if◌then◌else◌, length,
}
use mtcp_lua.Base.Int.{ℤ, pos, negsuc, ltb_ℤ, leb_ℤ, pos_part}
use mtcp_lua.RbTree.{Ptr, null}
use mtcp_lua.Timer.{event_add_timer, event_del_timer}
use mtcp_lua.Socket.State.{
  ctl_add, ctl_del, no_events, epollin, mtcp_write, mtcp_read, Answers, eagain, expect_arguments,
  socket_not_connected, write_socket_failed, recv_timedout, recv_failed, closed, exceed_limit,
  read_socket_failed, Value, nil_value, boolean, text, bytes, Outcome, raises, returns, resumes,
  recv_handler, SocketCtx, World, put, call, is_minus_one, is_positive, is_zero, msec_of_int,
}
use mtcp_lua.Socket.Connect.{epoll_ctl, set_event, with_timers, yield_on}

abbrev pub take {ℓ} : {A : Type ℓ} → ℕ → List A → List A
take zero xs = []
take (suc n) [] = []
take (suc n) (x ∷ xs) = x ∷ take n xs

-- `sctx->fd == -1 || sctx->connected != 1`
abbrev pub unusable : SocketCtx → Bool
unusable c = is_minus_one c.fd || not (c.connected == 1)

-- `mtcp_lua_socket_tcp_settimeout`
unfoldable pub settimeout : Ptr → ℕ → ℤ → World → Outcome × World
settimeout sctx argc timeout w =
    if not (argc == 2)
    then (raises expect_arguments, w)
    else if leb_ℤ timeout (pos 0) || ltb_ℤ (pos 600000) timeout
    then (raises exceed_limit, w)
    else (
      returns (boolean true ∷ []),
      put sctx
          (record (w.sockets sctx) {
            connect_timeout = timeout;
            read_timeout = timeout;
            write_timeout = timeout;
          })
          w,
    )

abbrev pub is_length : ℤ → ℕ → Bool
is_length (pos n) len = n == len
is_length (negsuc n) len = false

-- What a reading loop has gathered: the bytes, `sum`, the last `n`, and the world after it.
pub record Gathered : Type 0 where
  pub content : List ℕ
  pub sum : ℕ
  pub last : ℤ
  pub world : World

module _ (answers : Answers) (s fuel : ℕ) where
  -- `mtcp_lua_socket_tcp_send`
  unfoldable pub send : Ptr → ℕ → List ℕ → World → Outcome × World
  send sctx argc content w =
      let c = w.sockets sctx in
      let w1 = call (mtcp_write c.fd content) w in
      if not (argc == 2)
      then (raises expect_arguments, w)
      else if unusable c
      then (raises socket_not_connected, w)
      else if is_length (answers.result w1.calls) (length content)
      then (returns (boolean true ∷ []), w1)
      else (returns (nil_value ∷ text write_socket_failed ∷ []), w1)

  -- The loop of the handler, with a bound on its rounds.
  unfoldable pub gather : ℕ → Ptr → List ℕ → ℕ → World → Option Gathered
  gather zero sctx content sum w = none
  gather (suc k) sctx content sum w =
      let w1 = call (mtcp_read ((w.sockets sctx).fd) 1024) w in
      let n = answers.result w1.calls in
      let rest =
        gather k sctx (content ++ take (pos_part n) (answers.buffer w1.calls)) (sum + pos_part n)
          w1 in
      if is_positive n
      then rest
      else some (record { content = content; sum = sum; last = n; world = w1 })

  -- What the handler passes to the thread.
  unfoldable pub received : Gathered → List Value
  received g =
      if is_minus_one g.last && not (answers.errno g.world.calls == eagain)
      then nil_value ∷ text recv_failed ∷ []
      else if g.sum == 0
      then nil_value ∷ text closed ∷ []
      else if is_zero g.last
      then bytes g.content ∷ text closed ∷ []
      else bytes g.content ∷ []

  abbrev pub resume_with : Ptr → Option Gathered → Option (Outcome × World)
  resume_with ctx none = none
  resume_with ctx (some g) = some (resumes ctx (received g), g.world)

  abbrev pub read_ready : ℕ → Ptr → Ptr → Option World → Option (Outcome × World)
  read_ready k ctx sctx none = none
  read_ready k ctx sctx (some w) = resume_with ctx (gather k sctx [] 0 w)

  -- `mtcp_lua_socket_tcp_recv_handler`, where `ctx_of` finds the context of a Lua state.
  unfoldable pub run_recv_handler : ℕ → (Ptr → Ptr) → Ptr → World → Option (Outcome × World)
  run_recv_handler k ctx_of ev w =
      let sctx = w.ev_data ev in
      let ctx = ctx_of ((w.sockets sctx).vm) in
      if w.timers.timedout ev
      then some (
        resumes ctx (nil_value ∷ text recv_timedout ∷ []),
        (epoll_ctl answers s fuel sctx ctl_del no_events null w).1,
      )
      else read_ready k ctx sctx (with_timers w (event_del_timer s fuel ev w.timers))

  -- The registration that ends a `recv`.
  abbrev pub watch : Ptr → Ptr → Option World → Option World
  watch ctx sctx none = none
  watch ctx sctx (some w) = some ((epoll_ctl answers s fuel sctx ctl_add epollin ctx w).1)

  -- `mtcp_lua_socket_tcp_recv`
  unfoldable pub recv : Ptr → Ptr → Ptr → ℕ → World → Option (Outcome × World)
  recv l ctx sctx argc w =
      let c = w.sockets sctx in
      let w1 = call (mtcp_read c.fd 8192) w in
      let n = answers.result w1.calls in
      let w2 = set_event ctx sctx recv_handler (put sctx (record c { vm = l; vm_ctx = ctx }) w1) in
      if not (argc == 1)
      then some (raises expect_arguments, w)
      else if unusable c
      then some (raises socket_not_connected, w)
      else if is_positive n
      then some (returns (bytes (take (pos_part n) (answers.buffer w1.calls)) ∷ []), w1)
      else if not (answers.errno w1.calls == eagain)
      then some (returns (nil_value ∷ text read_socket_failed ∷ []), w1)
      else yield_on (
          watch ctx sctx (
            with_timers w2 (
              event_add_timer s fuel (answers.clock w2.calls) ctx (msec_of_int c.read_timeout)
                w2.timers)))
