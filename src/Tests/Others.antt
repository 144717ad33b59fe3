-- ===== src/Tests/Others.antt =====
-- The download client.
use mtcp_lua.Base.{◌==◌, if◌then◌else◌, ltb, ap, ◌≤◌, ◌≡◌, refl, arith, false}
use mtcp_lua.Base.{ℕ, zero, suc, true, Option, some, List, [], ◌∷◌, length}
use mtcp_lua.Base.Int.{pos, negsuc}
use mtcp_lua.Wget.{ThreadContext, Network, close_connection}
use mtcp_lua.Base.Int.{pos_part}
use mtcp_lua.Wget.Reading.{Reader, WgetVars, read_loop}
use mtcp_lua.Wget.Events.{Event, in_event, out_event}
use mtcp_lua.Wget.Run.{all_done, Preparation, ThreadEnd, finished, run_wget_main}
use mtcp_lua.Wget.Run.Safety.{SaneThread, run_wget_main-Sane}
use mtcp_lua.RbTree.Order.{All}
use mtcp_lua.Wget.Statistics.{WgetStat, no_stat, Printed, print_stats}
use mtcp_lua.Wget.Statistics.Averages.{print_stats-Sums}
use mtcp_lua.Wget.Accounting.{Filled, close_connection-Filled}

abbrev working : Network
working = record {
  socket = λ i. pos 7;
  setsock_nonblock = λ i. pos 0;
  connect = λ i. negsuc 0;
  errno = λ i. 115;
}

abbrev two_open : ThreadContext
two_open = record {
  target = 5;
  started = 3;
  done = 1;
  pending = 2;
  connects = 3;
  errors = 0;
  incompletes = 0;
  stat_errors = 0;
  completes = 1;
  stop = false;
  attempts = 3;
}

close_connection-Filled_example :
    Filled 2 (record two_open { done = 2 }) (close_connection working 2 3 two_open)
close_connection-Filled_example =
    close_connection-Filled working 2 3 two_open
      (record { sum = omega arith; within = omega arith; few = omega arith }) (omega arith)
      (omega arith)

-- The first read answers 500 bytes with a header of 100, the others nothing.
abbrev sizes : ℕ → ℕ
sizes i = if i == 0 then 500 else 0

abbrev header_at : ℕ → ℕ
header_at len = if ltb len 100 then 0 else 100

abbrev one_response : Reader
one_response = record {
  read = λ i. pos (sizes i);
  errno = λ i. 0;
  find_http_header = λ i len. header_at len;
  content_length = λ i. 1000;
}

abbrev nothing_read : WgetVars
nothing_read = record {
  headerset = false;
  resp_len = 0;
  header_len = 0;
  file_len = 0;
  recv = 0;
  reads = 0;
}

-- One connection: the request is sent, then the whole response comes.
abbrev whole_response : Reader
whole_response = record one_response { content_length = λ i. 400 }

abbrev two_waits : ℕ → Option (List (ℕ × Event))
two_waits zero = some ((7, out_event) ∷ [])
two_waits (suc i) = some ((7, in_event) ∷ [])

abbrev all_ready : Preparation
all_ready = record {
  context_allocated = true;
  mtcp_context_created = true;
  epoll_created = pos 3;
  events_allocated = true;
  vars_allocated = true;
}

run_wget_main-Sane_example : SaneThread 2 1 (
    run_wget_main working
      (λ j. whole_response)
      (λ j. pos 90)
      two_waits
      (λ i. false)
      2
      3
      3
      all_ready
      1)
run_wget_main-Sane_example =
    run_wget_main-Sane 2 1 working (λ j. whole_response) (λ j. pos 90) two_waits (λ i. false) 3 3
      all_ready (omega arith) (λ j. (1, omega arith, λ n h. omega (arith, ap pos_part h)))

wget_counts : ThreadEnd → List ℕ
wget_counts (finished (all_done c)) =
    c.context.done ∷ c.context.started ∷ c.context.pending ∷ c.context.completes ∷ c.writes
    ∷ c.reads ∷ []
wget_counts e = []

all_done_after_two :
    wget_counts (
      run_wget_main working
        (λ j. whole_response)
        (λ j. pos 90)
        two_waits
        (λ i. false)
        2
        3
        3
        all_ready
        1)
    ≡ 1 ∷ 1 ∷ 0 ∷ 1 ∷ 90 ∷ 500 ∷ []
unfolding wget_counts run_wget_main mtcp_lua.Wget.Run.run_loop mtcp_lua.Wget.fill
    mtcp_lua.Wget.wanting mtcp_lua.Wget.create_connection mtcp_lua.Wget.after_creation
    mtcp_lua.Wget.Events.handle_events mtcp_lua.Wget.Events.handle_event
    mtcp_lua.Wget.Events.send_http_request mtcp_lua.Wget.Reading.read_loop
    mtcp_lua.Wget.Reading.first_bytes mtcp_lua.Wget.Reading.verdict mtcp_lua.Wget.Reading.conclude
    mtcp_lua.Wget.close_connection mtcp_lua.Wget.close_after
all_done_after_two = refl

abbrev core_stat : WgetStat
core_stat = record no_stat {
  connects = 3;
  reads = 5000000;
  writes = 270;
  completes = 3;
  sum_resp_time = 900;
  max_resp_time = 400;
}

abbrev two_cores : List WgetStat
two_cores = core_stat ∷ no_stat ∷ []

print_stats-Sums_example :
    (p : Printed) × (rest : List WgetStat) × (print_stats two_cores ≡ some (p, rest))
    × (p.connect ≡ 3)
    × (p.read ≡ 4)
    × (p.write ≡ 0)
    × (p.completes ≡ 3)
    × (p.avg ≤ p.max)
    × All (λ st. st.max_resp_time ≤ p.max) two_cores
    × All (λ st. st ≡ no_stat) rest
    × (length rest ≡ 2)
print_stats-Sums_example = print_stats-Sums two_cores (omega arith, (omega arith, tt)) (omega arith)
