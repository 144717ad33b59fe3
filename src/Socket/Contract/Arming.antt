-- ===== src/Socket/Contract/Arming.antt =====
-- A thread that waits for its event, and the queue that can take its timer.
use mtcp_lua.Base.{
  ℕ, ◌+◌, ◌*◌, ◌%◌, ◌^◌, ◌≤◌, ◌<◌, ◌≡◌, ◌≢◌, refl, ap, ◌∙◌, Bool, true, false, some, List, ◌∷◌,
  ==_of_eq, Bool-cases, inl, inr, length,
}
use mtcp_lua.Base.Int.{sub64}
use mtcp_lua.RbTree.{Ptr}
use mtcp_lua.RbTree.Order.{insert_sorted}
use mtcp_lua.RbTree.Sequence.{occurs}
use mtcp_lua.Timer.{Timers, set_timedout, event_add_timer}
use mtcp_lua.Timer.Queue.{Queued, event_add_timer-Queued}
use mtcp_lua.Socket.{
  EpollOp, Interest, mtcp_epoll_ctl, Answers, Handler, World, is_zero, epoll_ctl, effective_op,
}

-- The thread's event is armed for the socket with a handler, and the socket knows the thread.
pub record Waits (w : World) (l ctx sctx : Ptr) (h : Handler) : Type 0 where
  pub armed : w.timers.timer_set ctx ≡ true
  pub fresh : w.timers.timedout ctx ≡ false
  pub data_set : w.ev_data ctx ≡ sctx
  pub handler : w.ev_handler ctx ≡ h
  pub vm : (w.sockets sctx).vm ≡ l
  pub vm_ctx : (w.sockets sctx).vm_ctx ≡ ctx

-- The queue can take a timer of the event `ctx`, `timeout` milliseconds from `now`.
pub record Admits (base : ℕ) (f : Ptr → ℕ) (s : Ptr) (m fuel : ℕ) (w : Timers) (ps : List Ptr)
    (ctx now timeout : ℕ) : Type 0 where
  pub base_word : base < 2 ^ 64
  pub queue : Queued base f s w ps
  pub off : w.timer_set ctx ≡ false
  pub ns : ctx ≢ s
  pub fresh : occurs ctx ps ≡ 0
  pub value : f ctx ≡ sub64 ((now + timeout) % 2 ^ 64) base
  pub window : f ctx < 2 ^ 63
  pub few : length ps + 1 < 2 ^ m
  pub enough : 2 * m ≤ fuel

module _ (answers : Answers) (base : ℕ) (f : Ptr → ℕ) (s : Ptr) (m fuel : ℕ) (ps : List Ptr)
    (l ctx sctx : Ptr) where
  pub retimed :
      (w : Timers) (ev now timeout : ℕ) (b : Bool)
      → Admits base f s m fuel w ps ctx now timeout
      → Admits base f s m fuel (set_timedout ev b w) ps ctx now timeout
  retimed w ev now timeout b a = record {
    base_word = a.base_word;
    queue = record {
      sorted = a.queue.sorted;
      value = a.queue.value;
      word = a.queue.word;
      window = a.queue.window;
    };
    off = a.off;
    ns = a.ns;
    fresh = a.fresh;
    value = a.value;
    window = a.window;
    few = a.few;
    enough = a.enough;
  }

  -- A new timer in a world whose event is already set up.
  pub start_timer :
      (h : Handler) (w : World) (timeout : ℕ)
      → Admits base f s m fuel w.timers ps ctx (answers.clock w.calls) timeout
      → w.timers.timedout ctx ≡ false
      → w.ev_data ctx ≡ sctx
      → w.ev_handler ctx ≡ h
      → (w.sockets sctx).vm ≡ l
      → (w.sockets sctx).vm_ctx ≡ ctx
      → (ts : Timers) × (event_add_timer s fuel (answers.clock w.calls) ctx timeout w.timers
          ≡ some ts)
        × Waits (record w { timers = ts }) l ctx sctx h
        × Queued base f s ts (insert_sorted f ctx (f ctx) ps)
  start_timer h w timeout a e1 e2 e3 e4 e5 =
      let (ts, run, q, keys, sets, outs) =
        event_add_timer-Queued base f s w.timers ps (answers.clock w.calls) ctx timeout m fuel
          a.base_word a.queue a.off a.ns a.fresh a.value a.window a.few a.enough in
      (
        ts,
        run,
        record {
          armed = ap (λ (g : Ptr → Bool). g ctx) sets ∙ rw (==_of_eq ctx ctx refl) refl;
          fresh = ap (λ (g : Ptr → Bool). g ctx) outs ∙ e1;
          data_set = e2;
          handler = e3;
          vm = e4;
          vm_ctx = e5;
        },
        q,
      )

  -- A registration spares the timers and what the thread waits for.
  pub epoll_ctl-Waits :
      (h : Handler) (op : EpollOp) (event : Interest) (w : World)
      → Waits w l ctx sctx h
      → Waits ((epoll_ctl answers s fuel sctx op event ctx w).1) l ctx sctx h
        × ((epoll_ctl answers s fuel sctx op event ctx w).1.timers ≡ w.timers)
  unfolding epoll_ctl
  epoll_ctl-Waits h op event w z =
      let c = w.sockets sctx in
      let op' = effective_op answers s fuel op c.active in
      elim (Bool-cases (is_zero (answers.result (mtcp_epoll_ctl op' event c.fd ctx ∷ w.calls)))) [
        | inl e ↦ rw e (
          record {
            armed = z.armed;
            fresh = z.fresh;
            data_set = z.data_set;
            handler = z.handler;
            vm = rw (==_of_eq sctx sctx refl) z.vm;
            vm_ctx = rw (==_of_eq sctx sctx refl) z.vm_ctx;
          },
          refl,
        )
        | inr e ↦ rw e (
          record {
            armed = z.armed;
            fresh = z.fresh;
            data_set = z.data_set;
            handler = z.handler;
            vm = z.vm;
            vm_ctx = z.vm_ctx;
          },
          refl,
        )
      ]
