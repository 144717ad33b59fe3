-- ===== src/Wget/Run/Safety.antt =====
-- The counters of a thread agree throughout `RunWgetMain`.
use mtcp_lua.Base.{
  ℕ, zero, suc, ◌+◌, ◌≤◌, ◌<◌, ◌≡◌, inl, inr, refl, arith, Bool, true, false, not, Option, none,
  some, List, length, leb, ◌==◌, Bool-cases, if◌then◌else◌,
}
use mtcp_lua.Base.Int.{ℤ, pos, ltb_ℤ}
use mtcp_lua.Wget.{ThreadContext, Network, fill}
use mtcp_lua.Wget.Reading.{Reader}
use mtcp_lua.Wget.Reading.Ending.{RunsDry}
use mtcp_lua.Wget.Events.{
  Client, Event, Run, running, quits, fails, starving, onward, handle_events,
}
use mtcp_lua.Wget.Run.{
  Ending, interrupted, after_events, after_wait, after_fill, clear_stats, run_loop, Preparation,
  new_client, ThreadEnd, no_context, no_flows, exits_with_failure, finished, run_wget_main,
}
use mtcp_lua.Wget.Run.Handling.{
  Sane, SaneRun, SaneEnding, fill-Sane, onward-Sane, handle_events-Sane,
}

module _ (concurrency target : ℕ) (net : Network) (fuel : ℕ) (enough : target < fuel)
    (reader : ℕ → Reader) (wrote : ℕ → ℤ) (waited : ℕ → Option (List (ℕ × Event)))
    (prints : ℕ → Bool) (dry : (j : ℕ) → RunsDry (reader j) fuel) where
  finished_counts :
      (ctx : ThreadContext)
      → Sane concurrency target ctx
      → leb ctx.target ctx.done ≡ true
      → (ctx.done ≡ target) × (ctx.started ≡ target) × (ctx.pending ≡ 0)
  finished_counts ctx z e =
      let le : ctx.target ≤ ctx.done = ground arith in
      (
        omega (arith, z.0.sum, z.0.within, z.1, le),
        omega (arith, z.0.sum, z.0.within, z.1, le),
        omega (arith, z.0.sum, z.0.within, z.1, le),
      )

  after_events-Sane :
      (next : Client → Ending) (r : Run)
      → ((c : Client) → Sane concurrency target c.context → SaneEnding concurrency target (next c))
      → SaneRun concurrency target r
      → SaneEnding concurrency target
          (after_events net reader wrote waited prints concurrency fuel next r)
  after_events-Sane next quits rec z = tt
  after_events-Sane next fails rec z = tt
  after_events-Sane next starving rec z = z
  after_events-Sane next (running c) rec z =
      elim (Bool-cases (leb c.context.target c.context.done)) [
        | inl e ↦ rw e (finished_counts c.context z e)
        | inr e ↦ rw e (rec c z)
      ]

  after_fill-Sane :
      (next : ℕ → Client → Ending) (i j : ℕ) (r : Run)
      → ((j : ℕ) (c : Client)
          → Sane concurrency target c.context
          → SaneEnding concurrency target (next j c))
      → SaneRun concurrency target r
      → SaneEnding concurrency target
          (after_fill net reader wrote waited prints concurrency fuel next i j r)
  after_fill-Sane next i j quits rec z = tt
  after_fill-Sane next i j fails rec z = tt
  after_fill-Sane next i j starving rec z = z
  after_fill-Sane next i j (running c) rec z = wait_on (waited i)
    where
      c1 : Client
      c1 = record c { waits = suc c.waits }

      wait_on :
          (o : Option (List (ℕ × Event)))
          → SaneEnding concurrency target
              (after_wait net reader wrote waited prints concurrency fuel next j o c1)
      wait_on none = (record { sum = z.0.sum; within = z.0.within; few = z.0.few }, z.1)
      wait_on (some evs) =
          after_events-Sane (next (j + length evs))
            (handle_events net reader wrote concurrency fuel j evs
              (running (record c1 { events = c1.events + length evs })))
            (rec (j + length evs))
            (handle_events-Sane concurrency target net fuel enough reader wrote waited prints dry j
              evs (running (record c1 { events = c1.events + length evs })) z)

  -- The loop of `RunWgetMain` keeps the counters in agreement over any number of rounds.
  pub run_loop-Sane :
      (k i j : ℕ) (c : Client)
      → Sane concurrency target c.context
      → SaneEnding concurrency target
          (run_loop net reader wrote waited prints concurrency fuel k i j c)
  unfolding run_loop
  run_loop-Sane zero i j c z = z
  run_loop-Sane (suc k) i j c z =
      let c1 = if prints i then clear_stats c else c in
      let z1 = printed (prints i) in
      either c.context.stop (interrupted c)
        (after_fill net reader wrote waited prints concurrency fuel
          (run_loop net reader wrote waited prints concurrency fuel k (suc i)) i j
          (onward net c1 (fill net concurrency fuel c1.context)))
        z
        (after_fill-Sane (run_loop net reader wrote waited prints concurrency fuel k (suc i)) i j
          (onward net c1 (fill net concurrency fuel c1.context))
          (λ j' c' z'. run_loop-Sane k (suc i) j' c' z')
          (onward-Sane concurrency target net fuel enough c1 (fill net concurrency fuel c1.context)
            (fill-Sane concurrency target net fuel enough c1.context z1)))
    where
      either :
          (b : Bool) (x y : Ending)
          → SaneEnding concurrency target x
          → SaneEnding concurrency target y
          → SaneEnding concurrency target (if b then x else y)
      either true x y hx hy = hx
      either false x y hx hy = hy

      printed : (b : Bool) → Sane concurrency target (if b then clear_stats c else c).context
      printed true = (record { sum = z.0.sum; within = z.0.within; few = z.0.few }, z.1)
      printed false = z

abbrev pub SaneThread : ℕ → ℕ → ThreadEnd → Type 0
SaneThread concurrency target no_context = Unit
SaneThread concurrency target no_flows = Unit
SaneThread concurrency target exits_with_failure = Unit
SaneThread concurrency target (finished e) = SaneEnding concurrency target e

module _ (concurrency flows : ℕ) where
  if_sane :
      (b : Bool) (x y : ThreadEnd)
      → SaneThread concurrency flows x
      → SaneThread concurrency flows y
      → SaneThread concurrency flows (if b then x else y)
  if_sane true x y hx hy = hx
  if_sane false x y hx hy = hy

  -- `RunWgetMain` with inner loops that may run `fuel` rounds, more than the thread has flows and than
  -- the reads of any event up to one without data, and for any number of rounds of its own
  -- loop: no inner loop runs out of rounds; and whenever the thread is looked at, unless the process
  -- has ended, every started connection is open or done, no more than `concurrency` are open, and
  -- no more than its flows are started. When it ends with all connections done, each flow was
  -- started and no connection is open.
  pub run_wget_main-Sane :
      (net : Network) (reader : ℕ → Reader) (wrote : ℕ → ℤ) (waited : ℕ → Option (List (ℕ × Event)))
      (prints : ℕ → Bool) (fuel rounds : ℕ) (up : Preparation)
      → flows < fuel
      → ((j : ℕ) → RunsDry (reader j) fuel)
      → SaneThread concurrency flows
          (run_wget_main net reader wrote waited prints concurrency fuel rounds up flows)
  unfolding run_wget_main
  run_wget_main-Sane net reader wrote waited prints fuel rounds up enough dry =
      let loop =
        run_loop net reader wrote waited prints concurrency fuel rounds 0 0 (new_client flows) in
      let sane =
        run_loop-Sane concurrency flows net fuel enough reader wrote waited prints dry rounds 0 0
          (new_client flows)
          (record { sum = refl; within = omega arith; few = omega arith }, refl) in
      let e6 = if not up.vars_allocated then exits_with_failure else finished loop in
      let e5 = if not up.events_allocated then exits_with_failure else e6 in
      let e4 = if ltb_ℤ up.epoll_created (pos 0) then exits_with_failure else e5 in
      let e3 = if flows == 0 then no_flows else e4 in
      let e2 = if not up.mtcp_context_created then no_context else e3 in
      if_sane (not up.context_allocated) no_context e2 tt (
        if_sane (not up.mtcp_context_created) no_context e3 tt (
          if_sane (flows == 0) no_flows e4 tt (
            if_sane (ltb_ℤ up.epoll_created (pos 0)) exits_with_failure e5 tt (
              if_sane (not up.events_allocated) exits_with_failure e6 tt
                (if_sane (not up.vars_allocated) exits_with_failure (finished loop) tt sane)))))
