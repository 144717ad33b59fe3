-- ===== src/Wget/Program.antt =====
-- `SignalHandler` and `main` of mtcp_lua.c. The limit on the cores is a variable that the file never
-- sets; the reading of mTCP's configuration is left out.
use mtcp_lua.Base.{ℕ, zero, suc, Bool, true, false, not, List, [], ◌∷◌, ◌==◌, if◌then◌else◌}
use mtcp_lua.Base.Int.{ℤ, pos, negsuc}
use mtcp_lua.RbTree.{update}

-- `core_limit`, a static variable without an initialiser.
abbrev pub wget_core_limit : ℕ
wget_core_limit = 0

-- The loop of `SignalHandler` from the core `i` on, `k` of them, on the flags of the threads.
unfoldable pub set_done : ℕ → ℕ → (ℕ → Bool) → ℕ → Bool
set_done i zero done = done
set_done i (suc k) done = set_done (suc i) k (update done i true)

-- `SignalHandler`
unfoldable pub signal_handler : (ℕ → Bool) → ℕ → Bool
signal_handler done = set_done 0 wget_core_limit done

-- The loop of `main` that starts the threads: those started, and whether all are.
unfoldable pub create_threads : (ℕ → Bool) → ℕ → ℕ → List ℕ × Bool
create_threads created i zero = ([], true)
create_threads created i (suc k) =
    let rest = create_threads created (suc i) k in
    if created i then (i ∷ rest.0, rest.1) else ([], false)

-- How the process ends, with the cores that a thread was started for.
pub data ProgramEnd : Type 0 where
  returns_code : ℕ → List ℕ → ProgramEnd
  exits_with_code : ℤ → List ℕ → ProgramEnd

-- `main`, whose threads are joined at its end.
unfoldable pub wget_main : ℕ → Bool → (ℕ → Bool) → ProgramEnd
wget_main argc mtcp_ready created =
    let r = create_threads created 0 wget_core_limit in
    if not (argc == 2)
    then returns_code 0 []
    else if not mtcp_ready
    then exits_with_code (pos 1) []
    else if r.1
    then returns_code 0 r.0
    else exits_with_code (negsuc 0) r.0
