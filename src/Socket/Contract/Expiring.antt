-- ===== src/Socket/Contract/Expiring.antt =====
-- A thread that waits in `recv` when its timer expires.
use mathlib.Core.Path.{subst}
use mtcp_lua.Base.{
  ℕ, ◌+◌, ◌^◌, ◌<◌, ◌≡◌, refl, sym, ap, ◌∙◌, true, false, some, List, [], ◌∷◌, length, ==_of_eq,
  Bool-cases, inl, inr,
}
use mtcp_lua.RbTree.{Ptr, null}
use mtcp_lua.RbTree.Order.{insert_sorted}
use mtcp_lua.Timer.{Timers, event_del_timer, set_timedout, fire}
use mtcp_lua.Timer.Queue.{Queued}
use mtcp_lua.Timer.Absence.{remove-insert_sorted}
use mtcp_lua.Timer.Expiry.{set_timedout-Queued}
use mtcp_lua.Socket.{
  EpollOp, ctl_del, Interest, no_events, mtcp_read, mtcp_epoll_ctl, Answers, eagain, nil_value,
  text, recv_timedout, Outcome, yields, resumes, World, is_zero, is_positive, msec_of_int,
  epoll_ctl, effective_op, unusable, recv, run_recv_handler,
}
use mtcp_lua.Socket.Contract.Arming.{Admits}
use mtcp_lua.Socket.Contract.Waking.{taken, recv-Awaited}

-- The state of the loop that expires timers: the world, and what the last handler did.
abbrev pub timers_in : Outcome × World → Timers
timers_in r = r.1.timers

abbrev pub put_timers_in : Timers → Outcome × World → Outcome × World
put_timers_in ts r = (r.0, record (r.1) { timers = ts })

module _ (answers : Answers) (s fuel : ℕ) where
  epoll_ctl-frame :
      (sctx : Ptr) (op : EpollOp) (event : Interest) (ev : Ptr) (w : World)
      → ((epoll_ctl answers s fuel sctx op event ev w).1.timers ≡ w.timers)
        × ((epoll_ctl answers s fuel sctx op event ev w).1.calls
            ≡ mtcp_epoll_ctl
                (effective_op answers s fuel op (w.sockets sctx).active)
                event
                (w.sockets sctx).fd
                ev
              ∷ w.calls)
  unfolding epoll_ctl
  epoll_ctl-frame sctx op event ev w =
      let c = w.sockets sctx in
      let op' = effective_op answers s fuel op c.active in
      elim (Bool-cases (is_zero (answers.result (mtcp_epoll_ctl op' event c.fd ev ∷ w.calls)))) [
        | inl e ↦ rw e (refl, refl)
        | inr e ↦ rw e (refl, refl)
      ]

  expired :
      (bound : ℕ) (ctx_of : Ptr → Ptr) (ev sctx l : Ptr) (u : World)
      → u.ev_data ev ≡ sctx
      → u.timers.timedout ev ≡ true
      → (u.sockets sctx).vm ≡ l
      → run_recv_handler answers s fuel bound ctx_of ev u
        ≡ some (
          resumes (ctx_of l) (nil_value ∷ text recv_timedout ∷ []),
          (epoll_ctl answers s fuel sctx ctl_del no_events null u).1,
        )
  unfolding run_recv_handler
  expired bound ctx_of ev sctx l u data_set out vm = rw (data_set, out, vm) refl

  -- The handler of `recv`, when its event has timed out, leaves the timers as they are.
  pub expired-timers :
      (bound : ℕ) (ctx_of : Ptr → Ptr) (ev : Ptr) (u : World)
      → u.timers.timedout ev ≡ true
      → (o : Outcome) × (u' : World) × (run_recv_handler answers s fuel bound ctx_of ev u
          ≡ some (o, u'))
        × (u'.timers ≡ u.timers)
  expired-timers bound ctx_of ev u out =
      let sctx = u.ev_data ev in
      let l = (u.sockets sctx).vm in
      (
        resumes (ctx_of l) (nil_value ∷ text recv_timedout ∷ []),
        (epoll_ctl answers s fuel sctx ctl_del no_events null u).1,
        expired bound ctx_of ev sctx l u refl out refl,
        (epoll_ctl-frame sctx ctl_del no_events null u).0,
      )

module _ (answers : Answers) (base : ℕ) (f : Ptr → ℕ) (s : Ptr) (m fuel : ℕ) (ps : List Ptr)
    (ctx sctx : Ptr) where
  -- A `recv` on a connected socket without data yields in a world `w'`. When the loop that expires
  -- timers then fires the thread's event, the handler resumes the thread that called `recv` with nil
  -- and the message of the timeout, whatever mTCP answers; it has asked mTCP to remove the socket's
  -- descriptor, has read nothing, and the queue of timers is the one before the `recv`.
  pub fire-recv :
      (l : Ptr) (w w' : World) (ctx_of : Ptr → Ptr) (bound now : ℕ)
      → unusable (w.sockets sctx) ≡ false
      → is_positive (answers.result (mtcp_read (w.sockets sctx).fd 8192 ∷ w.calls)) ≡ false
      → answers.errno (mtcp_read (w.sockets sctx).fd 8192 ∷ w.calls) ≡ eagain
      → Admits base f s m fuel w.timers ps ctx
          (answers.clock (mtcp_read (w.sockets sctx).fd 8192 ∷ w.calls))
          (msec_of_int (w.sockets sctx).read_timeout)
      → length ps + 2 < 2 ^ m
      → recv answers s fuel l ctx sctx 1 w ≡ some (yields, w')
      → (w2 : World) × (fire timers_in put_timers_in s fuel now
            (λ ev r. run_recv_handler answers s fuel bound ctx_of ev r.1)
            ctx
            (yields, w')
            (event_del_timer s fuel ctx w'.timers)
          ≡ some (resumes (ctx_of l) (nil_value ∷ text recv_timedout ∷ []), w2))
        × Queued base f s w2.timers ps
        × (w2.timers.timer_set ctx ≡ false)
        × (w2.calls ≡ mtcp_epoll_ctl ctl_del no_events (w'.sockets sctx).fd null ∷ w'.calls)
  unfolding fire
  fire-recv l w w' ctx_of bound now ok dry again a few run =
      let (wait, aw) =
        recv-Awaited answers base f s m fuel ps ctx sctx l w w' ok dry again a few run in
      let qs = insert_sorted f ctx (f ctx) ps in
      let (ts, gone, q, off) = taken answers base f s m fuel qs ctx sctx w' aw in
      let u : World = record w' { timers = set_timedout ctx true ts } in
      let w2 = (epoll_ctl answers s fuel sctx ctl_del no_events null u).1 in
      let (same, called) = epoll_ctl-frame answers s fuel sctx ctl_del no_events null u in
      let q2 : Queued base f s u.timers ps =
        set_timedout-Queued base f s ts ps ctx true
          (subst (λ xs. Queued base f s ts xs) (remove-insert_sorted f ctx (f ctx) ps a.fresh) q) in
      (
        w2,
        ap
              (fire timers_in put_timers_in s fuel now
                (λ ev r. run_recv_handler answers s fuel bound ctx_of ev r.1) ctx (yields, w'))
              gone
            ∙ expired answers s fuel bound ctx_of ctx sctx l u wait.data_set
                (rw (==_of_eq ctx ctx refl) refl) wait.vm,
        subst (λ v. Queued base f s v ps) (sym same) q2,
        ap (λ (v : Timers). v.timer_set ctx) same ∙ off,
        called,
      )
