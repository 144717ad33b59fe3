-- ===== src/Socket/Contract/Waking.antt =====
-- The handlers of `connect` and `recv` resume the thread that waits, and take its timer away.
use mathlib.Core.Path.{subst}
use mtcp_lua.Base.{
  ℕ, ◌+◌, ◌*◌, ◌^◌, ◌≤◌, ◌<◌, ◌≡◌, refl, ap, arith, ◌∙◌, Bool, true, false, Option, none, some, sym,
  List, [], ◌∷◌, ==_of_eq, ==_of_ne, length,
}
use mtcp_lua.Base.Int.{ℤ, negsuc}
use mtcp_lua.RbTree.{Ptr}
use mtcp_lua.RbTree.Order.{insert_sorted}
use mtcp_lua.RbTree.Sequence.{occurs}
use mtcp_lua.RbTree.Remove.{remove}
use mtcp_lua.Timer.{Timers, event_del_timer}
use mtcp_lua.Timer.Queue.{Queued, occurs-insert_sorted}
use mtcp_lua.Timer.Removal.{event_del_timer-Queued}
use mtcp_lua.Timer.Absence.{remove-insert_sorted, length-insert_sorted}
use mtcp_lua.Socket.{
  mtcp_read, mtcp_getsockopt, Answers, eagain, boolean, text, bytes, connect_successful, Outcome,
  resumes, finishes, World, put, call, connect_error, connect_ready, run_connect_handler, yields,
  recv_handler, recv, unusable, is_positive, msec_of_int, Gathered, received, resume_with,
  run_recv_handler,
}
use mtcp_lua.Socket.Contract.Arming.{Waits, Admits}
use mtcp_lua.Socket.Contract.Waiting.{recv-Waits}
use mtcp_lua.Socket.Contract.Reading.{reads, EndsAfter, contents, FillsBuffer, gather-contents}

-- The event `ctx` waits in the queue for the socket `sctx`, and has not timed out.
pub record Awaited (base : ℕ) (f : Ptr → ℕ) (s : Ptr) (m fuel : ℕ) (w : World) (ps : List Ptr)
    (ctx sctx : Ptr) : Type 0 where
  pub queue : Queued base f s w.timers ps
  pub inside : 0 < occurs ctx ps
  pub few : length ps + 1 < 2 ^ m
  pub enough : 2 * m ≤ fuel
  pub in_time : w.timers.timedout ctx ≡ false
  pub data_set : w.ev_data ctx ≡ sctx

module _ (answers : Answers) (base : ℕ) (f : Ptr → ℕ) (s : Ptr) (m fuel : ℕ) (ps : List Ptr)
    (ctx sctx : Ptr) where
  -- What a handler that ends with `o` leaves of the timers.
  abbrev pub Woken : Option (Outcome × World) → Outcome → (World → Type 0) → Type 0
  Woken run o Also =
      (w' : World) × (run ≡ some (o, w'))
      × Queued base f s w'.timers (remove ctx ps)
      × (w'.timers.timer_set ctx ≡ false)
      × Also w'

  pub taken :
      (w : World)
      → Awaited base f s m fuel w ps ctx sctx
      → (ts : Timers) × (event_del_timer s fuel ctx w.timers ≡ some ts)
        × Queued base f s ts (remove ctx ps)
        × (ts.timer_set ctx ≡ false)
  taken w a =
      let (ts, run, q, out, keys, sets, outs) =
        event_del_timer-Queued base f s w.timers ps ctx m fuel a.queue a.inside a.few a.enough in
      (ts, run, q, ap (λ (g : Ptr → Bool). g ctx) sets ∙ rw (==_of_eq ctx ctx refl) refl)

  -- When the connection of a waiting thread is ready and without error, the handler of `connect`
  -- resumes the socket's thread with `true`, the socket is connected, and the thread's timer is out
  -- of the queue and not set.
  pub connect_handler-resumes :
      (w : World)
      → Awaited base f s m fuel w ps ctx sctx
      → connect_error answers s fuel (call (mtcp_getsockopt (w.sockets sctx).fd) w) ≡ 0
      → Woken
          (run_connect_handler answers s fuel ctx w)
          (resumes ((w.sockets sctx).vm_ctx) (boolean true ∷ text connect_successful ∷ []))
          (λ w'. (w'.sockets sctx).connected ≡ 1)
  unfolding run_connect_handler connect_ready
  connect_handler-resumes w a ok =
      let (ts, run, q, off) = taken w a in
      (
        put sctx (record (w.sockets sctx) { connected = 1 })
            (call (mtcp_getsockopt (w.sockets sctx).fd) (record w { timers = ts })),
        rw (a.data_set, a.in_time, run, ok) refl,
        q,
        off,
        rw (==_of_eq sctx sctx refl) refl,
      )

  -- When the connection of a waiting thread has failed, the handler of `connect` ends without
  -- resuming any thread; the thread's timer is out of the queue and not set, and the socket is not
  -- changed.
  pub connect_handler-forgets :
      (w : World) (e : ℕ)
      → Awaited base f s m fuel w ps ctx sctx
      → connect_error answers s fuel (call (mtcp_getsockopt (w.sockets sctx).fd) w) ≡ e
      → 0 < e
      → Woken (run_connect_handler answers s fuel ctx w) finishes (λ w'. w'.sockets ≡ w.sockets)
  unfolding run_connect_handler connect_ready
  connect_handler-forgets w e a bad some_error =
      let (ts, run, q, off) = taken w a in
      (
        call (mtcp_getsockopt (w.sockets sctx).fd) (record w { timers = ts }),
        rw (a.data_set, a.in_time, run, bad, ==_of_ne e 0 (λ z. omega (arith, some_error, z))) refl,
        q,
        off,
        refl,
      )

  received-bytes :
      (g : Gathered)
      → g.last ≡ negsuc 0
      → answers.errno g.world.calls ≡ eagain
      → 0 < g.sum
      → received answers s fuel g ≡ bytes g.content ∷ []
  unfolding received
  received-bytes g last again some_bytes =
      rw (last, again, ==_of_ne g.sum 0 (λ z. omega (arith, some_bytes, z))) refl

  -- When `k` readings of a waiting thread's socket succeed, with some bytes in all, and the next one
  -- answers -1 with `EAGAIN`, the handler of `recv` resumes the thread with all those bytes, in
  -- order, and the thread's timer is out of the queue and not set.
  pub recv_handler-resumes :
      (w : World) (ctx_of : Ptr → Ptr) (fd : ℤ) (k bound : ℕ)
      → Awaited base f s m fuel w ps ctx sctx
      → (w.sockets sctx).fd ≡ fd
      → FillsBuffer answers fd
      → EndsAfter answers fd k w.calls
      → answers.result (mtcp_read fd 1024 ∷ reads answers fd k w.calls) ≡ negsuc 0
      → answers.errno (mtcp_read fd 1024 ∷ reads answers fd k w.calls) ≡ eagain
      → 0 < length (contents answers fd k w.calls)
      → k < bound
      → Woken
          (run_recv_handler answers s fuel bound ctx_of ctx w)
          (resumes (ctx_of (w.sockets sctx).vm) (bytes (contents answers fd k w.calls) ∷ []))
          (λ w'. w'.sockets ≡ w.sockets)
  unfolding run_recv_handler
  recv_handler-resumes w ctx_of fd k bound a e full ends last again some_bytes high =
      let (ts, run, q, off) = taken w a in
      let g : Gathered = record {
        content = contents answers fd k w.calls;
        sum = length (contents answers fd k w.calls);
        last = answers.result (mtcp_read fd 1024 ∷ reads answers fd k w.calls);
        world = record w { timers = ts; calls = mtcp_read fd 1024 ∷ reads answers fd k w.calls };
      } in
      (
        g.world,
        rw (a.data_set, a.in_time, run)
            (ap (resume_with answers s fuel (ctx_of (w.sockets sctx).vm)) (
                gather-contents answers s fuel sctx fd k bound (record w { timers = ts }) e full
                  ends high)
              ∙ ap (λ vs. some (resumes (ctx_of (w.sockets sctx).vm) vs, g.world))
                  (received-bytes g last again some_bytes)),
        q,
        off,
        refl,
      )

world_or : World → Option (Outcome × World) → World
world_or w (some r) = r.1
world_or w none = w

-- The world that an operation leaves.
pub world_of_eq :
    (o o' : Outcome) (w w' : World)
    → ◌≡◌ {A = Option (Outcome × World)} (some (o, w)) (some (o', w'))
    → w ≡ w'
unfolding world_or
world_of_eq o o' w w' e = ap (world_or w) e

module _ (answers : Answers) (base : ℕ) (f : Ptr → ℕ) (s : Ptr) (m fuel : ℕ) (ps : List Ptr)
    (ctx sctx : Ptr) where
  -- The event of a thread whose `recv` has yielded.
  pub recv-Awaited :
      (l : Ptr) (w w' : World)
      → unusable (w.sockets sctx) ≡ false
      → is_positive (answers.result (mtcp_read (w.sockets sctx).fd 8192 ∷ w.calls)) ≡ false
      → answers.errno (mtcp_read (w.sockets sctx).fd 8192 ∷ w.calls) ≡ eagain
      → Admits base f s m fuel w.timers ps ctx
          (answers.clock (mtcp_read (w.sockets sctx).fd 8192 ∷ w.calls))
          (msec_of_int (w.sockets sctx).read_timeout)
      → length ps + 2 < 2 ^ m
      → recv answers s fuel l ctx sctx 1 w ≡ some (yields, w')
      → Waits w' l ctx sctx recv_handler
        × Awaited base f s m fuel w' (insert_sorted f ctx (f ctx) ps) ctx sctx
  recv-Awaited l w w' ok dry again a few run =
      let (w0, run0, wait, q) = recv-Waits answers base f s m fuel ps l ctx sctx w ok dry again a in
      let same : w0 ≡ w' = world_of_eq yields yields w0 w' (sym run0 ∙ run) in
      let qs = insert_sorted f ctx (f ctx) ps in
      let wait' : Waits w' l ctx sctx recv_handler =
        subst (λ v. Waits v l ctx sctx recv_handler) same wait in
      (
        wait',
        record {
          queue = subst (λ (v : World). Queued base f s v.timers qs) same q;
          inside = ground (arith, occurs-insert_sorted f ctx (f ctx) ctx ps);
          few = omega (arith, few, length-insert_sorted f ctx (f ctx) ps);
          enough = a.enough;
          in_time = wait'.fresh;
          data_set = wait'.data_set;
        },
      )

  -- A `recv` on a connected socket without data yields in a world `w'`. When then data arrives, so
  -- that `k` readings succeed with some bytes in all and the next answers -1 with `EAGAIN`, the
  -- handler resumes the thread that called `recv` with those bytes, in order, and the queue of
  -- timers is the one before the `recv`.
  pub recv-recv_handler :
      (l : Ptr) (w w' : World) (ctx_of : Ptr → Ptr) (fd : ℤ) (k bound : ℕ)
      → unusable (w.sockets sctx) ≡ false
      → is_positive (answers.result (mtcp_read (w.sockets sctx).fd 8192 ∷ w.calls)) ≡ false
      → answers.errno (mtcp_read (w.sockets sctx).fd 8192 ∷ w.calls) ≡ eagain
      → Admits base f s m fuel w.timers ps ctx
          (answers.clock (mtcp_read (w.sockets sctx).fd 8192 ∷ w.calls))
          (msec_of_int (w.sockets sctx).read_timeout)
      → length ps + 2 < 2 ^ m
      → recv answers s fuel l ctx sctx 1 w ≡ some (yields, w')
      → (w'.sockets sctx).fd ≡ fd
      → FillsBuffer answers fd
      → EndsAfter answers fd k w'.calls
      → answers.result (mtcp_read fd 1024 ∷ reads answers fd k w'.calls) ≡ negsuc 0
      → answers.errno (mtcp_read fd 1024 ∷ reads answers fd k w'.calls) ≡ eagain
      → 0 < length (contents answers fd k w'.calls)
      → k < bound
      → (w2 : World) × (run_recv_handler answers s fuel bound ctx_of ctx w'
          ≡ some (resumes (ctx_of l) (bytes (contents answers fd k w'.calls) ∷ []), w2))
        × Queued base f s w2.timers ps
        × (w2.timers.timer_set ctx ≡ false)
  recv-recv_handler l w w' ctx_of fd k bound ok dry again a few run e full ends last again'
        some_bytes high =
      let (wait', aw) = recv-Awaited l w w' ok dry again a few run in
      let qs = insert_sorted f ctx (f ctx) ps in
      let (w2, run2, q2, off, socks) =
        recv_handler-resumes answers base f s m fuel qs ctx sctx w' ctx_of fd k bound aw e full ends
          last again' some_bytes high in
      (
        w2,
        run2
            ∙ ap (λ v. some (resumes (ctx_of v) (bytes (contents answers fd k w'.calls) ∷ []), w2))
                wait'.vm,
        subst (λ xs. Queued base f s w2.timers xs) (remove-insert_sorted f ctx (f ctx) ps a.fresh)
            q2,
        off,
      )
