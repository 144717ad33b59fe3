-- ===== src/Main/Sleeping.antt =====
-- `sleep`: the delay, and the timer.
use mtcp_lua.Base.{
  ℕ, ◌+◌, ◌*◌, ◌%◌, ◌^◌, ◌<◌, ◌≡◌, ◌≢◌, refl, ap, ◌∙◌, arith, Bool, true, false, some, List,
  ==_of_eq, ==_of_ne,
}
use mtcp_lua.Base.Int.{pos, ltb_ℤ}
use mtcp_lua.RbTree.{Ptr, null}
use mtcp_lua.RbTree.Order.{insert_sorted}
use mtcp_lua.Timer.Queue.{Queued, event_add_timer-Queued}
use mtcp_lua.Socket.{Answers, yields, timer_handler, World, with_timers, yield_on}
use mtcp_lua.Socket.Contract.Arming.{Admits}
use mtcp_lua.Main.{sleep, delay_of, sleeping}

delay-small : (n : ℕ) → n * 1000 < 2 ^ 31 → delay_of (pos n) ≡ pos (n * 1000)
unfolding delay_of
delay-small n h = rw (small n h) (ground arith)
  where
    small : (n : ℕ) → n * 1000 < 2 ^ 31 → (n * 1000) % 2 ^ 32 ≡ n * 1000
    small n h = omega (arith, h)

module _ (answers : Answers) (base : ℕ) (f : Ptr → ℕ) (s : Ptr) (m fuel : ℕ) (ps : List Ptr)
    (ctx : Ptr) where
  -- `sleep` for `n` seconds, of less than 2 ^ 31 milliseconds, yields. The thread's timer is then in
  -- the queue at `n` seconds from now, with its flag set, and its event resumes the thread.
  pub sleep-yields :
      (n : ℕ) (w : World)
      → n * 1000 < 2 ^ 31
      → ctx ≢ null
      → Admits base f s m fuel (sleeping ctx w).timers ps ctx (answers.clock w.calls) (n * 1000)
      → (w' : World) × (sleep answers s fuel ctx 1 (pos n) w ≡ some (yields, w'))
        × Queued base f s w'.timers (insert_sorted f ctx (f ctx) ps)
        × (w'.timers.tree.key ctx ≡ (answers.clock w.calls + n * 1000) % 2 ^ 64)
        × (w'.timers.timer_set ctx ≡ true)
        × (w'.timers.timedout ctx ≡ false)
        × (w'.ev_data ctx ≡ ctx)
        × (w'.ev_handler ctx ≡ timer_handler)
  unfolding sleep
  sleep-yields n w small ne a =
      let w1 : World = sleeping ctx w in
      let (ts, run, q, keys, sets, outs) =
        event_add_timer-Queued base f s w1.timers ps (answers.clock w.calls) ctx (n * 1000) m fuel
          a.base_word a.queue a.off a.ns a.fresh a.value a.window a.few a.enough in
      (
        record w1 { timers = ts },
        rw
            (
              delay-small n small,
              not_negative (n * 1000),
              ==_of_ne ctx null ne,
              word (n * 1000) (omega (arith, small)),
            )
            (ap (λ o. yield_on (with_timers w1 o)) run),
        q,
        ap (λ (g : Ptr → ℕ). g ctx) keys ∙ rw (==_of_eq ctx ctx refl) refl,
        ap (λ (g : Ptr → Bool). g ctx) sets ∙ rw (==_of_eq ctx ctx refl) refl,
        ap (λ (g : Ptr → Bool). g ctx) outs ∙ rw (==_of_eq ctx ctx refl) refl,
        rw (==_of_eq ctx ctx refl) refl,
        rw (==_of_eq ctx ctx refl) refl,
      )
    where
      not_negative : (k : ℕ) → ltb_ℤ (pos k) (pos 0) ≡ false
      not_negative k = ground arith

      word : (k : ℕ) → k < 2 ^ 64 → k % 2 ^ 64 ≡ k
      word k h = omega (arith, h)
