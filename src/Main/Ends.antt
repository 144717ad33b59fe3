-- ===== src/Main/Ends.antt =====
-- How the process ends, and which threads it has started by then.
use mtcp_lua.Base.{
  ℕ, zero, suc, ◌+◌, ◌≤◌, ◌≡◌, refl, arith, Bool, true, false, not, Option, none, some, List, [],
  ◌∷◌, length, ◌==◌, if◌then◌else◌, Bool-cases, inl, inr,
}
use mtcp_lua.Base.Int.{ℤ, pos, ltb_ℤ}
use mtcp_lua.RbTree.Order.{All}
use mtcp_lua.Log.{LogState, initial_log, log_init, unknown_level, open_log}
use mtcp_lua.Main.{num_cores}
use mtcp_lua.Main.Cores.{InBounds, accepted, few}
use mtcp_lua.Main.Program.{
  Flag, System, MainEnd, shows_usage, fatal, returns_zero, Settings, default_settings, read_flags,
  Reason, start_threads, join_threads, run_threads, opened_log, with_settings, main,
}

-- No `FATAL` is below the level of the log.
abbrev pub LevelOk : LogState → Type 0
LevelOk log = ltb_ℤ (pos 5) log.log_level ≡ false

-- The threads started have cores within the arrays, are no more than the machine has CPUs or the
-- configuration cores, and the log lets `FATAL` through; and `main` returns only when it has
-- started no thread.
abbrev pub EndOk : System → MainEnd → Type 0
EndOk sys shows_usage = Unit
EndOk sys (fatal reason started log) =
    All InBounds started
    × (length started ≤ sys.cpus)
    × (length started ≤ sys.configured)
    × LevelOk log
EndOk sys (returns_zero started log) = (started ≡ []) × LevelOk log

module _ (created : ℕ → Bool) where
  start_threads-InBounds :
      (i k : ℕ)
      → i + k ≤ 16
      → All InBounds (start_threads created i k).0 × (length (start_threads created i k).0 ≤ k)
  unfolding start_threads
  start_threads-InBounds i zero h = (tt, omega arith)
  start_threads-InBounds i (suc k) h = elim (Bool-cases (created i)) [
    | inl e ↦
        let r = start_threads-InBounds (suc i) k (omega (arith, h)) in
        rw e (((omega (arith, h), accepted i (omega (arith, h))), r.0), omega (arith, r.1))
    | inr e ↦ rw e (tt, omega arith)
  ]

log_init-LevelOk :
    (level : ℤ) (file : Option ℤ) (log : LogState) → LevelOk log → LevelOk (log_init level file log)
unfolding log_init
log_init-LevelOk level file log ok = elim (Bool-cases (unknown_level level)) [
  | inl e ↦ rw e ok
  | inr e ↦ rw e (opened file (known level e))
]
  where
    known : (l : ℤ) → unknown_level l ≡ false → ltb_ℤ (pos 5) l ≡ false
    known l h = ground arith

    opened :
        (file : Option ℤ)
        → ltb_ℤ (pos 5) level ≡ false
        → LevelOk (open_log file (record log { log_level = level }))
    opened none e = e
    opened (some fd) e = elim (Bool-cases (ltb_ℤ fd (pos 0))) [
      | inl e' ↦ rw e' e
      | inr e' ↦ rw e' e
    ]

if_ok :
    (sys : System) (b : Bool) (x y : MainEnd)
    → EndOk sys x
    → EndOk sys y
    → EndOk sys (if b then x else y)
if_ok sys true x y hx hy = hx
if_ok sys false x y hx hy = hy

run_threads-EndOk : (sys : System) (log : LogState) → LevelOk log → EndOk sys (run_threads sys log)
unfolding run_threads
run_threads-EndOk sys log ok =
    let n = num_cores sys.cpus sys.configured in
    let (a, b, c) = few sys.cpus sys.configured in
    let s = start_threads-InBounds sys.created 0 n (omega (arith, a)) in
    let r = start_threads sys.created 0 n in
    if_ok sys r.1 (join_threads n r.0 log) (fatal Reason.create_failed r.0 log)
      (joined n r.0 s.0 s.1 (omega (arith, c)) (omega (arith, b)))
      (s.0, omega (arith, s.1, c), omega (arith, s.1, b), ok)
  where
    nothing : (xs : List ℕ) → length xs ≤ 0 → xs ≡ []
    nothing [] h = refl
    nothing (x ∷ xs) h = absurd (omega (arith, h))

    joined :
        (k : ℕ) (started : List ℕ)
        → All InBounds started
        → length started ≤ k
        → k ≤ sys.cpus
        → k ≤ sys.configured
        → EndOk sys (join_threads k started log)
    joined zero started a h u v = unfold join_threads in (nothing started h, ok)
    joined (suc k) started a h u v =
        unfold join_threads in (a, omega (arith, h, u), omega (arith, h, v), ok)

-- Whatever the options, the arguments and the answers of the system, at the end of `main` the log
-- lets messages of the level FATAL through; every core that a thread was started for passes the guard
-- of `thread_entry` and is an index of the arrays of 16 contexts and threads; there are no more
-- of them than CPUs or configured cores; and `main` returns only when it has started none.
pub main-EndOk :
    (flags : List Flag) (argc : ℕ) (sys : System) → EndOk sys (main flags argc sys initial_log)
unfolding main with_settings
main-EndOk flags argc sys = begin (read_flags flags default_settings)
  where
    begin : (o : Option Settings) → EndOk sys (with_settings argc sys initial_log o)
    begin none = unfold with_settings in tt
    begin (some st) =
        let log1 = opened_log sys st initial_log in
        let ok1 =
          log_init-LevelOk st.log_level (if st.tmp_foreground then none else some sys.log_file)
            initial_log refl in
        let e2 =
          if not sys.mtcp_ready
          then fatal Reason.mtcp_init_failed [] log1
          else run_threads sys log1 in
        unfold with_settings in
        if_ok sys (not (argc == 1)) shows_usage e2 tt (
          if_ok sys (not sys.mtcp_ready) (fatal Reason.mtcp_init_failed [] log1)
            (run_threads sys log1) (tt, omega arith, omega arith, ok1)
            (run_threads-EndOk sys log1 ok1))
