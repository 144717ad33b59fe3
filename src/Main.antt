-- ===== src/Main.antt =====
-- main.c: the cores, the threads, and their loop.
--
-- `getopt` and the forking into the background are left out. What a Lua thread does when it is
-- resumed is a parameter, and so are the events that mTCP reports.
pub mod Cores
pub mod Threads
pub mod Program
pub mod Ends
pub mod Sleeping
pub mod Awaking
pub mod Rounds
pub mod Starting
use mtcp_lua.Base.{
  ℕ, zero, suc, ◌+◌, ◌-◌, ◌*◌, ◌%◌, ◌^◌, Bool, true, false, not, ◌||◌, Option, none, some, List, [],
  ◌∷◌, ◌==◌, if◌then◌else◌, ltb, leb,
}
use mtcp_lua.Base.Int.{ℤ, pos, negsuc, ltb_ℤ, signed32}
use mtcp_lua.RbTree.{Ptr, null, update}
use mtcp_lua.Timer.{
  Timers, set_timer_set, set_timedout, event_timer_init, event_add_timer, event_expire_timers,
}
use mtcp_lua.Socket.{
  Answers, Outcome, raises, yields, expect_arguments, invalid_sleep_duration, no_context, Handler,
  timer_handler, no_handler, connect_handler, recv_handler, World, with_timers, yield_on, set_event,
  msec_of_int,
}

abbrev pub max_core_limit : ℕ
max_core_limit = 16

-- The cores that `main` starts a thread for, of the machine's and the configured number.
unfoldable pub core_limit : ℕ → ℕ
core_limit cpus = if ltb cpus max_core_limit then cpus else max_core_limit

unfoldable pub num_cores : ℕ → ℕ → ℕ
num_cores cpus configured = if ltb (core_limit cpus) configured then core_limit cpus else configured

-- The loop of `main` from the core `i` on, `k` of them.
unfoldable pub start_from : ℕ → ℕ → List ℕ
start_from i zero = []
start_from i (suc k) = i ∷ start_from (suc i) k

unfoldable pub started_cores : ℕ → ℕ → List ℕ
started_cores cpus configured = start_from 0 (num_cores cpus configured)

-- The guard of `thread_entry`.
unfoldable pub core_accepted : ℤ → Bool
core_accepted core = not (ltb_ℤ core (pos 0) || ltb_ℤ (pos max_core_limit) core)

-- `(int) seconds * 1000`, for seconds that fit an `int`.
abbrev pub int_of_word : ℕ → ℤ
int_of_word w = signed32 (w % 2 ^ 32)

unfoldable pub delay_of : ℤ → ℤ
delay_of (pos n) = int_of_word (n * 1000)
delay_of (negsuc n) = int_of_word (2 ^ 32 * 1000 - suc n * 1000)

-- The event that `sleep` sets up.
abbrev pub sleeping : Ptr → World → World
sleeping ctx w =
    set_event ctx ctx timer_handler (record w { timers = set_timer_set ctx false w.timers })

-- `mtcp_lua_mtcp_sleep`
unfoldable pub sleep : Answers → Ptr → ℕ → Ptr → ℕ → ℤ → World → Option (Outcome × World)
sleep answers s fuel ctx argc seconds w =
    let delay = delay_of seconds in
    let w1 = sleeping ctx w in
    if not (argc == 1)
    then some (raises expect_arguments, w)
    else if ltb_ℤ delay (pos 0)
    then some (raises invalid_sleep_duration, w)
    else if ctx == null
    then some (raises no_context, w)
    else yield_on (
        with_timers w1
          (event_add_timer s fuel (answers.clock w1.calls) ctx (msec_of_int delay) w1.timers))

abbrev pub has_handler : Handler → Bool
has_handler no_handler = false
has_handler timer_handler = true
has_handler connect_handler = true
has_handler recv_handler = true

-- `run` is what the handler of an event does, up to the next yield of the Lua code that it resumes;
-- `reported i` are the events that the `i`-th `mtcp_epoll_wait` answers.
module _ (answers : Answers) (s fuel : ℕ) (reported : ℕ → List Ptr)
    (run : Ptr → World → Option World) where
  -- The events of one wait; an event without a handler is passed over.
  unfoldable pub dispatch : List Ptr → Option World → Option World
  dispatch evs none = none
  dispatch [] (some w) = some w
  dispatch (ev ∷ evs) (some w) =
      dispatch evs (if has_handler (w.ev_handler ev) then run ev w else some w)

  unfoldable pub expire : Option World → Option World
  expire none = none
  expire (some w) =
      event_expire_timers (λ (v : World). v.timers) (λ ts v. record v { timers = ts }) s fuel
        (answers.clock w.calls) run fuel (some w)

  -- The loop of `thread_entry`, with a bound on its rounds: the exit code of the process, and the
  -- world at that time.
  unfoldable pub thread_loop : ℕ → ℕ → Option World → Option (ℕ × World)
  thread_loop zero count o = none
  thread_loop (suc k) count none = none
  thread_loop (suc k) count (some w) =
      let rest = thread_loop k (suc count) (expire (dispatch (reported (suc count)) (some w))) in
      if suc count == 10 then some (5, w) else rest

-- What the calls before the loop answer: the context, the descriptor of the epoll, the array of
-- events, and whether the Lua state is made and the script loaded.
pub record SetUp : Type 0 where
  pub context_created : Bool
  pub epoll_created : ℤ
  pub events_allocated : Bool
  pub script_loaded : Bool

pub data ThreadEnd : Type 0 where
  returns_null : ThreadEnd
  exits_with : ℕ → World → ThreadEnd
  out_of_fuel : ThreadEnd

abbrev pub thread_end : Option (ℕ × World) → ThreadEnd
thread_end none = out_of_fuel
thread_end (some r) = exits_with r.0 r.1

-- `mtcp_lua_vm_init` with a script loaded: the first thread's event, due at once.
unfoldable pub vm_init : Answers → Ptr → ℕ → Ptr → World → Option World
vm_init answers s fuel ctx w =
    let w1 = sleeping ctx w in
    with_timers w1 (event_add_timer s fuel (answers.clock w1.calls) ctx 0 w1.timers)

abbrev pub init_timers : Ptr → World → World
init_timers s w = record w { timers = event_timer_init s w.timers }

-- `thread_entry` on the core `core`, whose first Lua thread has the context `ctx`.
unfoldable pub thread_entry :
    Answers
    → Ptr
    → ℕ
    → (ℕ → List Ptr)
    → (Ptr → World → Option World)
    → SetUp
    → ℤ
    → Ptr
    → World
    → ThreadEnd
thread_entry answers s fuel reported run up core ctx w =
    let w1 = init_timers s w in
    if not (core_accepted core)
    then returns_null
    else if not up.context_created
    then returns_null
    else if ltb_ℤ up.epoll_created (pos 0)
    then exits_with 1 w
    else if not up.events_allocated
    then exits_with 1 w
    else if not up.script_loaded
    then exits_with 1 w1
    else thread_end (thread_loop answers s fuel reported run 10 0 (vm_init answers s fuel ctx w1))
