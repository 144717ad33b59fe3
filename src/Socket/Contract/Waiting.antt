-- ===== src/Socket/Contract/Waiting.antt =====
-- A thread that yields in `connect` or `recv` waits for its event, with its timer set.
use mathlib.Core.Path.{subst}
use mtcp_lua.Base.{
  ℕ, ◌≤◌, ◌≡◌, refl, sym, ap, arith, ◌∙◌, true, false, ◌||◌, some, List, ◌∷◌, ◌==◌, ==_of_eq,
  Bool-cases, inl, inr,
}
use mtcp_lua.Base.Int.{ℤ, pos, ltb_ℤ}
use mtcp_lua.RbTree.{Ptr}
use mtcp_lua.RbTree.Order.{insert_sorted}
use mtcp_lua.Timer.{Timers, event_add_timer}
use mtcp_lua.Timer.Queue.{Queued}
use mtcp_lua.Socket.{
  ctl_add, epollin, epollout, Call, mtcp_socket, mtcp_setsock_nonblock, mtcp_connect, mtcp_read,
  mtcp_epoll_ctl, Answers, yields, connect_handler, recv_handler, World, put, call, eagain,
  einprogress, is_zero, is_negative, is_positive, is_minus_one, msec_of_int, epoll_ctl,
  effective_op, active_after, set_event, with_timers, yield_on, await_connect, connect_fd,
  open_socket, connect, recv, watch, unusable,
}
use mtcp_lua.Socket.Contract.Arming.{Waits, Admits, retimed, start_timer, epoll_ctl-Waits}

-- The calls up to `mtcp_connect` of a new socket.
abbrev pub trying : ℕ → World → List Call
trying fd w = mtcp_connect (pos fd) ∷ mtcp_setsock_nonblock (pos fd) ∷ mtcp_socket ∷ w.calls

module _ (answers : Answers) (base : ℕ) (f : Ptr → ℕ) (s : Ptr) (m fuel : ℕ) (ps : List Ptr)
    (l ctx sctx : Ptr) where
  -- A `recv` on a connected socket, without data and with `EAGAIN`, yields; the thread then waits
  -- for its event with the handler of `recv`, and its timer is in the queue at the socket's
  -- `read_timeout` from now. This holds whether or not mTCP accepts the registration.
  pub recv-Waits :
      (w : World)
      → unusable (w.sockets sctx) ≡ false
      → is_positive (answers.result (mtcp_read (w.sockets sctx).fd 8192 ∷ w.calls)) ≡ false
      → answers.errno (mtcp_read (w.sockets sctx).fd 8192 ∷ w.calls) ≡ eagain
      → Admits base f s m fuel w.timers ps ctx
          (answers.clock (mtcp_read (w.sockets sctx).fd 8192 ∷ w.calls))
          (msec_of_int (w.sockets sctx).read_timeout)
      → (w' : World) × (recv answers s fuel l ctx sctx 1 w ≡ some (yields, w'))
        × Waits w' l ctx sctx recv_handler
        × Queued base f s w'.timers (insert_sorted f ctx (f ctx) ps)
  unfolding recv
  recv-Waits w ok dry again a =
      let c = w.sockets sctx in
      let w2 : World =
        set_event ctx sctx recv_handler
          (put sctx (record c { vm = l; vm_ctx = ctx }) (call (mtcp_read c.fd 8192) w)) in
      let (ts, run, wait, q) =
        start_timer answers base f s m fuel ps l ctx sctx recv_handler w2
          (msec_of_int c.read_timeout)
          (retimed answers base f s m fuel ps l ctx sctx w.timers ctx (answers.clock w2.calls)
            (msec_of_int c.read_timeout) false a)
          (rw (==_of_eq ctx ctx refl) refl) (rw (==_of_eq ctx ctx refl) refl)
          (rw (==_of_eq ctx ctx refl) refl) (rw (==_of_eq sctx sctx refl) refl)
          (rw (==_of_eq sctx sctx refl) refl) in
      let (kept, same) =
        epoll_ctl-Waits answers base f s m fuel ps l ctx sctx recv_handler ctl_add epollin
          (record w2 { timers = ts }) wait in
      (
        (epoll_ctl answers s fuel sctx ctl_add epollin ctx (record w2 { timers = ts })).1,
        rw (ok, dry, again)
            (ap (λ o. yield_on (watch answers s fuel ctx sctx (with_timers w2 o))) run),
        kept,
        subst (λ (x : Timers). Queued base f s x (insert_sorted f ctx (f ctx) ps)) (sym same) q,
      )

  added : (a : ℕ) → active_after answers s fuel (effective_op answers s fuel ctl_add a) ≡ 1
  added a = elim (Bool-cases (a == 0)) [ inl e ↦ rw e refl | inr e ↦ rw e refl ]

  registered :
      (w : World) (active : ℕ) (fd : ℤ)
      → (w.sockets sctx).active ≡ active
      → (w.sockets sctx).fd ≡ fd
      → is_zero (
          answers.result
            (mtcp_epoll_ctl (effective_op answers s fuel ctl_add active) epollout fd ctx ∷ w.calls))
        ≡ true
      → epoll_ctl answers s fuel sctx ctl_add epollout ctx w ≡ (
        true,
        put sctx
            (record (w.sockets sctx) { active = 1 })
            (call (mtcp_epoll_ctl (effective_op answers s fuel ctl_add active) epollout fd ctx) w),
      )
  unfolding epoll_ctl
  registered w active fd ea ef ok = rw (ea, ef, ok, added active) refl

  await-Waits :
      (w : World) (active : ℕ) (fd timeout : ℤ)
      → (w.sockets sctx).active ≡ active
      → (w.sockets sctx).fd ≡ fd
      → (w.sockets sctx).connect_timeout ≡ timeout
      → is_zero (
          answers.result
            (mtcp_epoll_ctl (effective_op answers s fuel ctl_add active) epollout fd ctx ∷ w.calls))
        ≡ true
      → Admits base f s m fuel w.timers ps ctx
          (answers.clock
            (mtcp_epoll_ctl (effective_op answers s fuel ctl_add active) epollout fd ctx ∷ w.calls))
          (msec_of_int timeout)
      → w.timers.timedout ctx ≡ false
      → w.ev_data ctx ≡ sctx
      → w.ev_handler ctx ≡ connect_handler
      → (w.sockets sctx).vm ≡ l
      → (w.sockets sctx).vm_ctx ≡ ctx
      → (w' : World) × (await_connect answers s fuel ctx sctx w ≡ some (yields, w'))
        × Waits w' l ctx sctx connect_handler
        × Queued base f s w'.timers (insert_sorted f ctx (f ctx) ps)
        × ((w'.sockets sctx).active ≡ 1)
        × ((w'.sockets sctx).fd ≡ fd)
  unfolding await_connect
  await-Waits w active fd timeout ea ef et ok a h1 h2 h3 h4 h5 =
      let w1 : World =
        put sctx (record (w.sockets sctx) { active = 1 })
          (call (mtcp_epoll_ctl (effective_op answers s fuel ctl_add active) epollout fd ctx) w) in
      let (ts, run, wait, q) =
        start_timer answers base f s m fuel ps l ctx sctx connect_handler w1 (msec_of_int timeout) a
          h1 h2 h3 (rw (==_of_eq sctx sctx refl) h4) (rw (==_of_eq sctx sctx refl) h5) in
      let now : (w1.sockets sctx).connect_timeout ≡ timeout = rw (==_of_eq sctx sctx refl) et in
      (
        record w1 { timers = ts },
        rw (registered w active fd ea ef ok) (
            ap
              (λ (d : ℤ). yield_on (
                with_timers w1
                  (event_add_timer s fuel (answers.clock w1.calls) ctx (msec_of_int d) w1.timers)))
              now
            ∙ ap (λ o. yield_on (with_timers w1 o)) run),
        wait,
        q,
        rw (==_of_eq sctx sctx refl) refl,
        rw (==_of_eq sctx sctx refl) ef,
      )

  -- The world in which the connection is tried, and the one in which the thread starts to wait.
  abbrev before_wait : ℤ → World → World
  before_wait fd w =
      let w1 = call (mtcp_connect fd) w in
      set_event ctx sctx connect_handler
        (put sctx (record (w1.sockets sctx) { fd = fd; vm = l; vm_ctx = ctx }) w1)

  connect_fd-await :
      (w : World) (fd : ℤ)
      → is_zero (answers.result (mtcp_connect fd ∷ w.calls)) ≡ false
      → answers.errno (mtcp_connect fd ∷ w.calls) ≡ einprogress
      → connect_fd answers s fuel l ctx sctx fd w
        ≡ await_connect answers s fuel ctx sctx (before_wait fd w)
  unfolding connect_fd
  connect_fd-await w fd e3 e4 = rw (e3, e4) refl

  open_socket-connect_fd :
      (w : World) (fd : ℕ)
      → answers.result (mtcp_socket ∷ w.calls) ≡ pos fd
      → is_negative (answers.result (mtcp_setsock_nonblock (pos fd) ∷ mtcp_socket ∷ w.calls))
        ≡ false
      → open_socket answers s fuel l ctx sctx w
        ≡ connect_fd answers s fuel l ctx sctx
            (pos fd)
            (call (mtcp_setsock_nonblock (pos fd)) (call mtcp_socket w))
  unfolding open_socket
  open_socket-connect_fd w fd e1 e2 = rw (e1, e2) refl

  abbrev addressed : List ℕ → ℕ → World → World
  addressed host port w =
      put sctx
        (record (w.sockets sctx) {
          sockaddr = record { address = answers.inet_pton_address host; port = port };
        })
        w

  connect-open_socket :
      (w : World) (host : List ℕ) (port : ℕ)
      → is_minus_one (w.sockets sctx).fd ≡ true
      → answers.inet_pton_ok host ≡ true
      → port ≤ 65535
      → connect answers s fuel l ctx sctx 3 host (pos port) w
        ≡ open_socket answers s fuel l ctx sctx (addressed host port w)
  unfolding connect
  connect-open_socket w host port gone good range = rw (good, in_range, gone) refl
    where
      in_range : (ltb_ℤ (pos port) (pos 0) || ltb_ℤ (pos 65535) (pos port)) ≡ false
      in_range = ground arith

  -- A `connect` of a closed socket to a good address, whose connection is in progress and whose
  -- registration mTCP accepts, yields; the thread then waits for its event with the handler of
  -- `connect`, its timer is in the queue at the socket's `connect_timeout` from now, and the socket
  -- is registered and has the new descriptor.
  pub connect-Waits :
      (w : World) (host : List ℕ) (port fd : ℕ)
      → is_minus_one (w.sockets sctx).fd ≡ true
      → answers.inet_pton_ok host ≡ true
      → port ≤ 65535
      → answers.result (mtcp_socket ∷ w.calls) ≡ pos fd
      → is_negative (answers.result (mtcp_setsock_nonblock (pos fd) ∷ mtcp_socket ∷ w.calls))
        ≡ false
      → is_zero (answers.result (trying fd w)) ≡ false
      → answers.errno (trying fd w) ≡ einprogress
      → is_zero (
          answers.result (
            mtcp_epoll_ctl
              (effective_op answers s fuel ctl_add (w.sockets sctx).active)
              epollout
              (pos fd)
              ctx
            ∷ trying fd w))
        ≡ true
      → Admits base f s m fuel w.timers ps ctx
          (answers.clock (
            mtcp_epoll_ctl
              (effective_op answers s fuel ctl_add (w.sockets sctx).active)
              epollout
              (pos fd)
              ctx
            ∷ trying fd w))
          (msec_of_int (w.sockets sctx).connect_timeout)
      → (w' : World) × (connect answers s fuel l ctx sctx 3 host (pos port) w ≡ some (yields, w'))
        × Waits w' l ctx sctx connect_handler
        × Queued base f s w'.timers (insert_sorted f ctx (f ctx) ps)
        × ((w'.sockets sctx).active ≡ 1)
        × ((w'.sockets sctx).fd ≡ pos fd)
  connect-Waits w host port fd gone good range e1 e2 e3 e4 e5 a =
      let w4 : World =
        call (mtcp_setsock_nonblock (pos fd)) (call mtcp_socket (addressed host port w)) in
      let (w', run, wait, q, active, has_fd) =
        await-Waits (before_wait (pos fd) w4) (w.sockets sctx).active (pos fd)
          (w.sockets sctx).connect_timeout (rw (==_of_eq sctx sctx refl) refl)
          (rw (==_of_eq sctx sctx refl) refl) (rw (==_of_eq sctx sctx refl) refl) e5
          (retimed answers base f s m fuel ps l ctx sctx w.timers ctx
            (answers.clock (
              mtcp_epoll_ctl (effective_op answers s fuel ctl_add (w.sockets sctx).active) epollout
                (pos fd) ctx
              ∷ trying fd w))
            (msec_of_int (w.sockets sctx).connect_timeout) false a)
          (rw (==_of_eq ctx ctx refl) refl) (rw (==_of_eq ctx ctx refl) refl)
          (rw (==_of_eq ctx ctx refl) refl) (rw (==_of_eq sctx sctx refl) refl)
          (rw (==_of_eq sctx sctx refl) refl) in
      (
        w',
        connect-open_socket w host port gone good range
            ∙ open_socket-connect_fd (addressed host port w) fd e1 e2
            ∙ connect_fd-await w4 (pos fd) e3 e4
            ∙ run,
        wait,
        q,
        active,
        has_fd,
      )
