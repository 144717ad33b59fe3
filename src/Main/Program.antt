-- ===== src/Main/Program.antt =====
-- `main` of main.c. The options that `getopt` reads, the number of arguments behind them, and what
-- the calls answer are parameters. A call of `FATAL` is taken to end the process. Going into the
-- background keeps what is modelled as it is, except that the log has a file then.
use mtcp_lua.Base.{
  ℕ, zero, suc, Bool, true, false, not, Option, none, some, List, [], ◌∷◌, ◌==◌, if◌then◌else◌,
}
use mtcp_lua.Base.Int.{ℤ, pos}
use mtcp_lua.Log.{LogState, log_init}
use mtcp_lua.Main.{num_cores}

-- `-f`, `-l`, `-h`, and any other.
pub data Flag : Type 0 where
  foreground_flag : Flag
  level_flag : ℤ → Flag
  help_flag : Flag
  unknown_flag : Flag

pub record Settings : Type 0 where
  pub tmp_foreground : Bool
  pub log_level : ℤ

abbrev pub default_settings : Settings
default_settings = record { tmp_foreground = false; log_level = pos 4 }

-- The loop over the options; the usage is shown for `none`.
unfoldable pub read_flags : List Flag → Settings → Option Settings
read_flags [] st = some st
read_flags (foreground_flag ∷ fs) st = read_flags fs (record st { tmp_foreground = true })
read_flags (level_flag l ∷ fs) st = read_flags fs (record st { log_level = l })
read_flags (help_flag ∷ fs) st = none
read_flags (unknown_flag ∷ fs) st = none

-- What the calls answer: the descriptor of the log's file, whether `mtcp_init` succeeds, the numbers of
-- CPUs and of configured cores, and whether the thread of a core is created.
pub record System : Type 0 where
  pub log_file : ℤ
  pub mtcp_ready : Bool
  pub cpus : ℕ
  pub configured : ℕ
  pub created : ℕ → Bool

pub data Reason : Type 0 where
  mtcp_init_failed : Reason
  create_failed : Reason
  thread_joined : ℕ → Reason

-- How the process ends, with the cores whose threads were started and the log.
pub data MainEnd : Type 0 where
  shows_usage : MainEnd
  fatal : Reason → List ℕ → LogState → MainEnd
  returns_zero : List ℕ → LogState → MainEnd

-- The loop that starts the threads, from the core `i` on, `k` of them: the cores started, and whether
-- all were.
unfoldable pub start_threads : (ℕ → Bool) → ℕ → ℕ → List ℕ × Bool
start_threads created i zero = ([], true)
start_threads created i (suc k) =
    let rest = start_threads created (suc i) k in
    if created i then (i ∷ rest.0, rest.1) else ([], false)

-- The loop that joins the threads, `n` of them: it calls `FATAL` for the first.
unfoldable pub join_threads : ℕ → List ℕ → LogState → MainEnd
join_threads zero started log = returns_zero started log
join_threads (suc n) started log = fatal (thread_joined 0) started log

unfoldable pub run_threads : System → LogState → MainEnd
run_threads sys log =
    let n = num_cores sys.cpus sys.configured in
    let r = start_threads sys.created 0 n in
    if r.1 then join_threads n r.0 log else fatal create_failed r.0 log

-- The log, and the end of `main`, for settings that are read.
abbrev pub opened_log : System → Settings → LogState → LogState
opened_log sys st log =
    log_init st.log_level (if st.tmp_foreground then none else some sys.log_file) log

unfoldable pub with_settings : ℕ → System → LogState → Option Settings → MainEnd
with_settings argc sys log none = shows_usage
with_settings argc sys log (some st) =
    let log1 = opened_log sys st log in
    if not (argc == 1)
    then shows_usage
    else if not sys.mtcp_ready
    then fatal mtcp_init_failed [] log1
    else run_threads sys log1

-- `main`
unfoldable pub main : List Flag → ℕ → System → LogState → MainEnd
main flags argc sys log = with_settings argc sys log (read_flags flags default_settings)
