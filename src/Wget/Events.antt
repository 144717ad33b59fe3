-- ===== src/Wget/Events.antt =====
-- `SendHTTPRequest` of mtcp_lua.c, and what `RunWgetMain` does in an event. The answers of the reads
-- in the `j`-th event and of `mtcp_write` are parameters.
use mtcp_lua.Base.{
  ℕ, zero, suc, ◌+◌, ◌-◌, ◌%◌, ◌^◌, Bool, true, false, List, [], ◌∷◌, if◌then◌else◌,
}
use mtcp_lua.Base.Int.{ℤ, pos, negsuc}
use mtcp_lua.RbTree.{update}
use mtcp_lua.Wget.{
  ThreadContext, Network, Progress, exited, aborted, starved, continues, close_connection,
}
use mtcp_lua.Wget.Reading.{
  WgetVars, Reader, ReadEnd, no_header, ended, out_of_rounds, read_loop, verdict, conclude,
}

-- The fields of `struct wget_vars`, zero after the `memset`.
pub record Connection : Type 0 where
  pub request_sent : Bool
  pub vars : WgetVars

abbrev pub cleared : Connection
cleared = record {
  request_sent = false;
  vars = record {
    headerset = false;
    resp_len = 0;
    header_len = 0;
    file_len = 0;
    recv = 0;
    reads = 0;
  };
}

-- The thread: its context, its connections by their sockets, and the counters `reads`, `writes`,
-- `waits`, `events` and `timedout` of its statistics.
pub record Client : Type 0 where
  pub context : ThreadContext
  pub conns : ℕ → Connection
  pub reads : ℕ
  pub writes : ℕ
  pub waits : ℕ
  pub events : ℕ
  pub timedout : ℕ

-- An `int` added to a 64-bit counter.
abbrev pub add_int : ℕ → ℤ → ℕ
add_int a (pos n) = (a + n) % 2 ^ 64
add_int a (negsuc n) = (a + 2 ^ 64 - suc n) % 2 ^ 64

-- `SendHTTPRequest`, with the answer `wr` of `mtcp_write`.
unfoldable pub send_http_request : ℕ → ℤ → Client → Client
send_http_request sockid wr c =
    let conn = c.conns sockid in
    record c {
      writes = add_int c.writes wr;
      conns = update c.conns sockid (record {
        request_sent = true;
        vars = record conn.vars { headerset = false; recv = 0; header_len = 0; file_len = 0 };
      });
    }

-- The events of a socket: with `MTCP_EPOLLERR`, where the flag says whether the error is
-- `ETIMEDOUT`; else with `MTCP_EPOLLIN`; else `MTCP_EPOLLOUT` alone; or another.
pub data Event : Type 0 where
  error_event : Bool → Event
  in_event : Event
  out_event : Event
  other_event : Event

-- How far the thread is: it goes on, or the process exits or aborts, or a loop runs out of rounds.
pub data Run : Type 0 where
  running : Client → Run
  quits : Run
  fails : Run
  starving : Run

-- The sockets of the attempts from `i` on, `n` of them, are cleared.
abbrev pub clear_new : Network → ℕ → ℕ → (ℕ → Connection) → ℕ → Connection
clear_new net i zero conns = conns
clear_new net i (suc n) conns = clear_new net (suc i) n (clear_socket (net.socket i) conns)
  where
    clear_socket : ℤ → (ℕ → Connection) → ℕ → Connection
    clear_socket (pos sockid) conns = update conns sockid cleared
    clear_socket (negsuc n) conns = conns

-- What `CloseConnection` or the loop that opens connections does to the thread.
abbrev pub onward : Network → Client → Progress → Run
onward net c exited = quits
onward net c aborted = fails
onward net c starved = starving
onward net c (continues ctx) = running (record c {
  context = ctx;
  conns = clear_new net c.context.attempts (ctx.attempts - c.context.attempts) c.conns;
})

abbrev pub vars_after : ReadEnd → WgetVars → WgetVars
vars_after (no_header v') v = v'
vars_after (ended rd i v') v = v'
vars_after out_of_rounds v = v

module _ (net : Network) (reader : ℕ → Reader) (wrote : ℕ → ℤ) (concurrency fuel : ℕ) where
  -- The counters of an event with an error.
  abbrev pub count_error : Bool → Client → Client
  count_error timed_out c = record c {
    context = record c.context {
      errors = suc c.context.errors;
      stat_errors = suc c.context.stat_errors;
    };
    timedout = if timed_out then suc c.timedout else c.timedout;
  }

  -- The `j`-th event.
  unfoldable pub handle_event : ℕ → ℕ → Event → Client → Run
  handle_event j sockid (error_event timed_out) c =
      let c1 = count_error timed_out c in
      onward net c1 (close_connection net concurrency fuel c1.context)
  handle_event j sockid in_event c =
      let conn = c.conns sockid in
      let start = record conn.vars { reads = c.reads } in
      let end = read_loop (reader j) fuel 0 start in
      let vars = vars_after end start in
      let c1 = record c {
        conns = update c.conns sockid (record conn { vars = vars });
        reads = vars.reads;
      } in
      onward net c1 (conclude (reader j) net concurrency fuel c.context (verdict (reader j) end))
  handle_event j sockid out_event c =
      if (c.conns sockid).request_sent
      then running c
      else running (send_http_request sockid (wrote j) c)
  handle_event j sockid other_event c = fails

  -- The events of one wait, numbered from `j` on.
  unfoldable pub handle_events : ℕ → List (ℕ × Event) → Run → Run
  handle_events j evs quits = quits
  handle_events j evs fails = fails
  handle_events j evs starving = starving
  handle_events j [] (running c) = running c
  handle_events j (ev ∷ evs) (running c) = handle_events (suc j) evs (handle_event j ev.0 ev.1 c)
