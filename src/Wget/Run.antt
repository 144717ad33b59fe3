-- ===== src/Wget/Run.antt =====
-- `CreateContext` and `RunWgetMain` of mtcp_lua.c: the loop of one thread of the download client. The
-- answers of `mtcp_epoll_wait` are a parameter, and so are the rounds in which `PrintStats` is
-- called, on core 0 once a second.
pub mod Handling
pub mod Safety
use mtcp_lua.Base.{
  ℕ, zero, suc, ◌+◌, ◌-◌, ◌%◌, ◌^◌, Bool, true, false, not, Option, none, some, List, [], ◌∷◌, ◌==◌,
  if◌then◌else◌, ltb, leb, length,
}
use mtcp_lua.Base.Int.{ℤ, pos, negsuc, ltb_ℤ}
use mtcp_lua.RbTree.{update}
use mtcp_lua.Wget.{
  ThreadContext, Network, Progress, exited, aborted, starved, continues, fill, close_connection,
}
use mtcp_lua.Wget.Reading.{
  WgetVars, Reader, ReadEnd, no_header, ended, out_of_rounds, read_loop, verdict, conclude,
}
use mtcp_lua.Wget.Events.{
  cleared, Client, Event, Run, running, quits, fails, starving, onward, handle_events,
}

-- `PrintStats` clears the thread's statistics.
abbrev pub clear_stats : Client → Client
clear_stats c = record c {
  context = record c.context { connects = 0; stat_errors = 0; completes = 0 };
  reads = 0;
  writes = 0;
  waits = 0;
  events = 0;
  timedout = 0;
}

-- How the loop of `RunWgetMain` ends: by the thread's flag or a failed wait, with all connections
-- done, or with the process; or it goes on after the rounds asked for, or a loop in a round is
-- starved.
pub data Ending : Type 0 where
  interrupted : Client → Ending
  all_done : Client → Ending
  process_quits : Ending
  process_fails : Ending
  still_running : Client → Ending
  starved_round : Ending

module _ (net : Network) (reader : ℕ → Reader) (wrote : ℕ → ℤ)
    (waited : ℕ → Option (List (ℕ × Event))) (prints : ℕ → Bool) (concurrency fuel : ℕ) where
  -- The end of a round, after the events.
  abbrev pub after_events : (Client → Ending) → Run → Ending
  after_events next quits = process_quits
  after_events next fails = process_fails
  after_events next starving = starved_round
  after_events next (running c) =
      let rest = next c in if leb c.context.target c.context.done then all_done c else rest

  -- The wait, which answers no number of events when it fails.
  abbrev pub after_wait : (ℕ → Client → Ending) → ℕ → Option (List (ℕ × Event)) → Client → Ending
  after_wait next j none c = interrupted (record c { context = record c.context { stop = true } })
  after_wait next j (some evs) c = after_events (next (j + length evs)) (
      handle_events net reader wrote concurrency fuel j evs
        (running (record c { events = c.events + length evs })))

  abbrev pub after_fill : (ℕ → Client → Ending) → ℕ → ℕ → Run → Ending
  after_fill next i j quits = process_quits
  after_fill next i j fails = process_fails
  after_fill next i j starving = starved_round
  after_fill next i j (running c) = after_wait next j (waited i) (record c { waits = suc c.waits })

  -- At most so many rounds of the loop, from the `i`-th wait and the `j`-th event on.
  unfoldable pub run_loop : ℕ → ℕ → ℕ → Client → Ending
  run_loop zero i j c = still_running c
  run_loop (suc k) i j c =
      let c1 = if prints i then clear_stats c else c in
      let round =
        after_fill (run_loop k (suc i)) i j
          (onward net c1 (fill net concurrency fuel c1.context)) in
      if c.context.stop then interrupted c else round

-- What the calls before the loop answer.
pub record Preparation : Type 0 where
  pub context_allocated : Bool
  pub mtcp_context_created : Bool
  pub epoll_created : ℤ
  pub events_allocated : Bool
  pub vars_allocated : Bool

abbrev pub new_client : ℕ → Client
new_client flows = record {
  context = record {
    target = flows;
    started = 0;
    done = 0;
    pending = 0;
    connects = 0;
    errors = 0;
    incompletes = 0;
    stat_errors = 0;
    completes = 0;
    stop = false;
    attempts = 0;
  };
  conns = λ sockid. cleared;
  reads = 0;
  writes = 0;
  waits = 0;
  events = 0;
  timedout = 0;
}

-- How the thread ends: without a context, without flows, or after the loop; or with the process.
pub data ThreadEnd : Type 0 where
  no_context : ThreadEnd
  no_flows : ThreadEnd
  exits_with_failure : ThreadEnd
  finished : Ending → ThreadEnd

-- `RunWgetMain` with `CreateContext`, for a core with `flows` flows, and rounds up to `rounds`.
unfoldable pub run_wget_main :
    Network
    → (ℕ → Reader)
    → (ℕ → ℤ)
    → (ℕ → Option (List (ℕ × Event)))
    → (ℕ → Bool)
    → ℕ
    → ℕ
    → ℕ
    → Preparation
    → ℕ
    → ThreadEnd
run_wget_main net reader wrote waited prints concurrency fuel rounds up flows =
    if not up.context_allocated
    then no_context
    else if not up.mtcp_context_created
    then no_context
    else if flows == 0
    then no_flows
    else if ltb_ℤ up.epoll_created (pos 0)
    then exits_with_failure
    else if not up.events_allocated
    then exits_with_failure
    else if not up.vars_allocated
    then exits_with_failure
    else finished
        (run_loop net reader wrote waited prints concurrency fuel rounds 0 0 (new_client flows))
