-- ===== src/Wget/Run/Handling.antt =====
-- The counters in what the thread does with the events of one wait.
use mtcp_lua.Base.{
  ℕ, zero, suc, ◌-◌, ◌<◌, ◌≡◌, inl, inr, refl, ◌∙◌, arith, Bool, Option, List, [], ◌∷◌, Bool-cases,
}
use mtcp_lua.Base.Int.{ℤ}
use native.Mathlib.Decide.{dec_lt}
use mtcp_lua.RbTree.{update}
use mtcp_lua.Wget.{
  ThreadContext, Network, Progress, exited, aborted, starved, continues, fill, close_after,
  close_connection,
}
use mtcp_lua.Wget.Accounting.{Accounted, Filled, fill-Filled, close_connection-Filled}
use mtcp_lua.Wget.Reading.{
  Reader, Verdict, keeps_open, download_complete, incomplete, fails_to_read, lacks_header,
  unfinished, completed, read_loop, verdict, conclude,
}
use mtcp_lua.Wget.Reading.Ending.{RunsDry, Settled, read_loop-Settled}
use mtcp_lua.Wget.Events.{
  Client, Event, error_event, in_event, out_event, other_event, Run, running, quits, fails,
  starving, count_error, vars_after, onward, handle_event, handle_events, send_http_request,
}
use mtcp_lua.Wget.Run.{
  Ending, interrupted, all_done, still_running, starved_round, process_quits, process_fails,
}

module _ (concurrency target : ℕ) where
  -- The counters agree and the limits are kept, for a thread with the target `target`.
  abbrev pub Sane : ThreadContext → Type 0
  Sane ctx = Accounted concurrency ctx × (ctx.target ≡ target)

  abbrev pub SaneProgress : Progress → Type 0
  SaneProgress exited = Unit
  SaneProgress aborted = Unit
  SaneProgress starved = ⊥
  SaneProgress (continues ctx) = Sane ctx

  abbrev pub SaneRun : Run → Type 0
  SaneRun quits = Unit
  SaneRun fails = Unit
  SaneRun starving = ⊥
  SaneRun (running c) = Sane c.context

  -- What the loop ends with: with all connections done, each of them was started and none is open.
  abbrev pub SaneEnding : Ending → Type 0
  SaneEnding (interrupted c) = Sane c.context
  SaneEnding (still_running c) = Sane c.context
  SaneEnding (all_done c) =
      (c.context.done ≡ target) × (c.context.started ≡ target) × (c.context.pending ≡ 0)
  SaneEnding process_quits = Unit
  SaneEnding process_fails = Unit
  SaneEnding starved_round = ⊥

  from_Filled :
      (ctx : ThreadContext) (p : Progress)
      → ctx.target ≡ target
      → Filled concurrency ctx p
      → SaneProgress p
  from_Filled ctx exited e h = tt
  from_Filled ctx aborted e h = tt
  from_Filled ctx starved e h = h
  from_Filled ctx (continues c) e h = (h.0, h.2 ∙ e)

  module _ (net : Network) (fuel : ℕ) (enough : target < fuel) where
    room : (ctx : ThreadContext) → Sane ctx → ctx.target - ctx.started < fuel
    room ctx z = omega (arith, z.1, enough)

    pub fill-Sane : (ctx : ThreadContext) → Sane ctx → SaneProgress (fill net concurrency fuel ctx)
    fill-Sane ctx z =
        from_Filled ctx (fill net concurrency fuel ctx) z.1
          (fill-Filled net concurrency fuel ctx z.0 (room ctx z))

    close_connection-Sane :
        (ctx : ThreadContext) → Sane ctx → SaneProgress (close_connection net concurrency fuel ctx)
    close_connection-Sane ctx z = elim (dec_lt 0 ctx.pending) [
      | yes some_open ↦
          from_Filled (record ctx { done = suc ctx.done })
            (close_connection net concurrency fuel ctx) z.1
            (close_connection-Filled net concurrency fuel ctx z.0 some_open (room ctx z))
      | no none_open ↦ nothing_open ctx.pending refl none_open
    ]
      where
        nothing_open :
            (p : ℕ)
            → ctx.pending ≡ p
            → ¬ (0 < ctx.pending)
            → SaneProgress (close_connection net concurrency fuel ctx)
        nothing_open zero e h = unfold close_connection close_after in rw e tt
        nothing_open (suc p) e h = absurd (h (omega (arith, e)))

    completed-Sane : (p : Progress) → SaneProgress p → SaneProgress (completed p)
    completed-Sane exited h = h
    completed-Sane aborted h = h
    completed-Sane starved h = h
    completed-Sane (continues ctx) h =
        (record { sum = h.0.sum; within = h.0.within; few = h.0.few }, h.1)

    conclude-Sane :
        (r : Reader) (ctx : ThreadContext) (v : Verdict)
        → Settled v
        → Sane ctx
        → SaneProgress (conclude r net concurrency fuel ctx v)
    unfolding conclude
    conclude-Sane r ctx unfinished h z = h
    conclude-Sane r ctx keeps_open h z = z
    conclude-Sane r ctx download_complete h z =
        completed-Sane (close_connection net concurrency fuel ctx) (close_connection-Sane ctx z)
    conclude-Sane r ctx incomplete h z =
        close_connection-Sane
          (record ctx { stat_errors = suc ctx.stat_errors; incompletes = suc ctx.incompletes })
          (record { sum = z.0.sum; within = z.0.within; few = z.0.few }, z.1)
    conclude-Sane r ctx fails_to_read h z =
        close_connection-Sane
          (record ctx { stat_errors = suc ctx.stat_errors; errors = suc ctx.errors })
          (record { sum = z.0.sum; within = z.0.within; few = z.0.few }, z.1)
    conclude-Sane r ctx lacks_header h z =
        close_connection-Sane
          (record ctx { stat_errors = suc ctx.stat_errors; errors = suc ctx.errors })
          (record { sum = z.0.sum; within = z.0.within; few = z.0.few }, z.1)

    pub onward-Sane : (c : Client) (p : Progress) → SaneProgress p → SaneRun (onward net c p)
    onward-Sane c exited h = tt
    onward-Sane c aborted h = tt
    onward-Sane c starved h = h
    onward-Sane c (continues ctx) h = h

    module _ (reader : ℕ → Reader) (wrote : ℕ → ℤ) (waited : ℕ → Option (List (ℕ × Event)))
        (prints : ℕ → Bool) (dry : (j : ℕ) → RunsDry (reader j) fuel) where
      handle_event-Sane :
          (j sockid : ℕ) (ev : Event) (c : Client)
          → Sane c.context
          → SaneRun (handle_event net reader wrote concurrency fuel j sockid ev c)
      unfolding handle_event send_http_request
      handle_event-Sane j sockid (error_event timed_out) c z =
          let ctx : ThreadContext = record c.context {
            errors = suc c.context.errors;
            stat_errors = suc c.context.stat_errors;
          } in
          onward-Sane (count_error net reader wrote concurrency fuel timed_out c)
            (close_connection net concurrency fuel ctx)
            (close_connection-Sane ctx
              (record { sum = z.0.sum; within = z.0.within; few = z.0.few }, z.1))
      handle_event-Sane j sockid in_event c z =
          let conn = c.conns sockid in
          let end = read_loop (reader j) fuel 0 (record conn.vars { reads = c.reads }) in
          let vars = vars_after end (record conn.vars { reads = c.reads }) in
          onward-Sane
            (record c {
              conns = update c.conns sockid (record conn { vars = vars });
              reads = vars.reads;
            })
            (conclude (reader j) net concurrency fuel c.context (verdict (reader j) end))
            (conclude-Sane (reader j) c.context (verdict (reader j) end)
              (read_loop-Settled (reader j) fuel (record conn.vars { reads = c.reads }) (dry j)) z)
      handle_event-Sane j sockid out_event c z = elim (Bool-cases ((c.conns sockid).request_sent)) [
        | inl e ↦ rw e z
        | inr e ↦ rw e z
      ]
      handle_event-Sane j sockid other_event c z = tt

      pub handle_events-Sane :
          (j : ℕ) (evs : List (ℕ × Event)) (r : Run)
          → SaneRun r
          → SaneRun (handle_events net reader wrote concurrency fuel j evs r)
      unfolding handle_events
      handle_events-Sane j evs quits z = tt
      handle_events-Sane j evs fails z = tt
      handle_events-Sane j evs starving z = z
      handle_events-Sane j [] (running c) z = z
      handle_events-Sane j (ev ∷ evs) (running c) z =
          handle_events-Sane (suc j) evs
            (handle_event net reader wrote concurrency fuel j ev.0 ev.1 c)
            (handle_event-Sane j ev.0 ev.1 c z)
