-- ===== src/Socket/Contract/Handling.antt =====
-- `send`, `settimeout`, `recv` and the two handlers keep the flag `active` true to mTCP's record.
use mtcp_lua.Base.{
  ℕ, zero, suc, ◌++◌, ◌+◌, ◌≡◌, refl, ◌||◌, Option, none, some, List, [], ◌∷◌, ◌==◌, ==_of_eq,
  Bool-cases, inl, inr, length,
}
use mtcp_lua.Base.Int.{ℤ, pos, pos_part, ltb_ℤ, leb_ℤ}
use mtcp_lua.RbTree.{Ptr, null}
use mtcp_lua.Timer.{Timers, event_add_timer, event_del_timer}
use mtcp_lua.Socket.{
  ctl_add, ctl_del, no_events, epollin, mtcp_getsockopt, mtcp_write, mtcp_read, Answers, World, put,
  call, send, recv, unusable, is_positive, eagain, watch, yield_on, with_timers, set_event,
  recv_handler, run_connect_handler, connect_ready, connect_error, is_length, settimeout,
  msec_of_int, resume_with, gather, take, read_ready, run_recv_handler,
}
use mtcp_lua.Socket.Contract.Listing.{Consistent, epoll_ctl-Consistent, Kept}

module _ (answers : Answers) (s fuel : ℕ) (sctx : Ptr) where
  pub send-Consistent :
      (argc : ℕ) (content : List ℕ) (w : World)
      → Consistent answers sctx w
      → Consistent answers sctx ((send answers s fuel sctx argc content w).1)
  unfolding send
  send-Consistent argc content w h = elim (Bool-cases (argc == 2)) [
    | inr e ↦ rw e h
    | inl e ↦ elim (Bool-cases (unusable (w.sockets sctx))) [
      | inl e' ↦ rw (e, e') h
      | inr e' ↦
          elim (Bool-cases (
            is_length (answers.result (mtcp_write (w.sockets sctx).fd content ∷ w.calls))
              (length content))) [ inl e'' ↦ rw (e, e', e'') h | inr e'' ↦ rw (e, e', e'') h ]
    ]
  ]

  pub settimeout-Consistent :
      (argc : ℕ) (timeout : ℤ) (w : World)
      → Consistent answers sctx w
      → Consistent answers sctx ((settimeout sctx argc timeout w).1)
  unfolding settimeout
  settimeout-Consistent argc timeout w h = elim (Bool-cases (argc == 2)) [
    | inr e ↦ rw e h
    | inl e ↦ elim (Bool-cases (leb_ℤ timeout (pos 0) || ltb_ℤ (pos 600000) timeout)) [
      | inl e' ↦ rw (e, e') h
      | inr e' ↦ rw (e, e', ==_of_eq sctx sctx refl) h
    ]
  ]

  watched :
      (ctx : Ptr) (w : World) (o : Option Timers)
      → Consistent answers sctx w
      → Kept answers s fuel sctx (yield_on (watch answers s fuel ctx sctx (with_timers w o)))
  watched ctx w none h = tt
  watched ctx w (some ts) h =
      epoll_ctl-Consistent answers s fuel sctx ctl_add epollin ctx (record w { timers = ts }) h

  pub recv-Kept :
      (l ctx : Ptr) (argc : ℕ) (w : World)
      → Consistent answers sctx w
      → Kept answers s fuel sctx (recv answers s fuel l ctx sctx argc w)
  unfolding recv
  recv-Kept l ctx argc w h = elim (Bool-cases (argc == 1)) [
    | inr e ↦ rw e h
    | inl e ↦ elim (Bool-cases (unusable (w.sockets sctx))) [
      | inl e1 ↦ rw (e, e1) h
      | inr e1 ↦
          elim (Bool-cases
            (is_positive (answers.result (mtcp_read (w.sockets sctx).fd 8192 ∷ w.calls)))) [
              | inl e2 ↦ rw (e, e1, e2) h
              | inr e2 ↦
                  elim (Bool-cases
                    (answers.errno (mtcp_read (w.sockets sctx).fd 8192 ∷ w.calls) == eagain)) [
                      | inr e3 ↦ rw (e, e1, e2, e3) h
                      | inl e3 ↦
                          let c = w.sockets sctx in
                          let w2 : World = set_event ctx sctx recv_handler (
                            put sctx (record c { vm = l; vm_ctx = ctx })
                              (call (mtcp_read c.fd 8192) w)) in
                          let h2 : Consistent answers sctx w2 = rw (==_of_eq sctx sctx refl) h in
                          rw (e, e1, e2, e3)
                            (watched ctx w2
                              (event_add_timer s fuel (answers.clock w2.calls) ctx
                                (msec_of_int c.read_timeout) w2.timers)
                              h2)
                    ]
            ]
    ]
  ]

  ready :
      (o : Option Timers) (w : World)
      → Consistent answers sctx w
      → Kept answers s fuel sctx (connect_ready answers s fuel sctx (with_timers w o))
  unfolding connect_ready
  ready none w h = tt
  ready (some ts) w h =
      elim (Bool-cases (
        connect_error answers s fuel
          (call (mtcp_getsockopt (w.sockets sctx).fd) (record w { timers = ts }))
        == 0)) [ inl e ↦ rw (e, ==_of_eq sctx sctx refl) h | inr e ↦ rw e h ]

  pub handler-Kept :
      (ev : Ptr) (w : World)
      → w.ev_data ev ≡ sctx
      → Consistent answers sctx w
      → Kept answers s fuel sctx (run_connect_handler answers s fuel ev w)
  unfolding run_connect_handler
  handler-Kept ev w e h = elim (Bool-cases (w.timers.timedout ev)) [
    | inl e' ↦ rw (e, e') (epoll_ctl-Consistent answers s fuel sctx ctl_del no_events null w h)
    | inr e' ↦ rw (e, e') (ready (event_del_timer s fuel ev w.timers) w h)
  ]

  gather-Consistent :
      (k : ℕ) (ctx : Ptr) (content : List ℕ) (sum : ℕ) (w : World)
      → Consistent answers sctx w
      → Kept answers s fuel sctx
          (resume_with answers s fuel ctx (gather answers s fuel k sctx content sum w))
  unfolding gather
  gather-Consistent zero ctx content sum w h = tt
  gather-Consistent (suc k) ctx content sum w h =
      let w1 : World = call (mtcp_read (w.sockets sctx).fd 1024) w in
      let n = answers.result w1.calls in
      elim (Bool-cases (is_positive n)) [
        | inl e ↦ rw e (
            gather-Consistent k ctx (content ++ take (pos_part n) (answers.buffer w1.calls))
              (sum + pos_part n) w1 h)
        | inr e ↦ rw e h
      ]

  reading :
      (k : ℕ) (ctx : Ptr) (o : Option Timers) (w : World)
      → Consistent answers sctx w
      → Kept answers s fuel sctx (read_ready answers s fuel k ctx sctx (with_timers w o))
  reading k ctx none w h = tt
  reading k ctx (some ts) w h = gather-Consistent k ctx [] 0 (record w { timers = ts }) h

  pub recv_handler-Kept :
      (k : ℕ) (ctx_of : Ptr → Ptr) (ev : Ptr) (w : World)
      → w.ev_data ev ≡ sctx
      → Consistent answers sctx w
      → Kept answers s fuel sctx (run_recv_handler answers s fuel k ctx_of ev w)
  unfolding run_recv_handler
  recv_handler-Kept k ctx_of ev w e h = elim (Bool-cases (w.timers.timedout ev)) [
    | inl e' ↦ rw (e, e') (epoll_ctl-Consistent answers s fuel sctx ctl_del no_events null w h)
    | inr e' ↦
        rw (e, e') (reading k (ctx_of (w.sockets sctx).vm) (event_del_timer s fuel ev w.timers) w h)
  ]
