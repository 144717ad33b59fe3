-- ===== src/Log.antt =====
-- mtcp_lua_log.c: the log.
--
-- The lengths that `strftime` and `vsnprintf` answer, and the descriptor that `open` answers, are
-- arguments.
use mtcp_lua.Base.{ℕ, ◌+◌, Bool, not, ◌||◌, Option, none, some, ◌==◌, if◌then◌else◌, leb}
use mtcp_lua.Base.Int.{ℤ, pos, negsuc, ltb_ℤ, pos_part}

abbrev pub max_log_length : ℕ
max_log_length = 1024

pub record LogState : Type 0 where
  pub log_level : ℤ
  pub output : ℤ

-- The two variables before `mtcp_lua_log_init`.
abbrev pub initial_log : LogState
initial_log = record { log_level = pos 0; output = pos 1 }

-- `level < LOG_LEVEL_DEBUG || level > LOG_LEVEL_FATAL`
abbrev pub unknown_level : ℤ → Bool
unknown_level level = ltb_ℤ level (pos 1) || ltb_ℤ (pos 5) level

abbrev pub open_log : Option ℤ → LogState → LogState
open_log none st = st
open_log (some fd) st = if ltb_ℤ fd (pos 0) then st else record st { output = fd }

-- `mtcp_lua_log_init`, with the answer of `open` when there is a file.
unfoldable pub log_init : ℤ → Option ℤ → LogState → LogState
log_init level file st =
    if unknown_level level then st else open_log file (record st { log_level = level })

-- What a call does: nothing, a read behind the array of names, a return for an error of
-- `vsnprintf`, a write behind the buffer, or a line to the output, and whether the process ends.
pub data LogEffect : Type 0 where
  skipped : LogEffect
  reads_past_names : LogEffect
  abandoned : LogEffect
  writes_past_buffer : LogEffect
  written : ℤ → ℕ → Bool → LogEffect

-- The length of `log_level_string[level]`; the array has five entries.
abbrev pub name_length : ℕ → Option ℕ
name_length level =
    if level == 0
    then some 5
    else if level == 1
    then some 4
    else if level == 2
    then some 4
    else if level == 3
    then some 5
    else if level == 4
    then some 5
    else none

-- From `vsnprintf` on, behind `used` characters.
unfoldable pub log_text : ℤ → ℤ → ℕ → ℤ → LogEffect
log_text output level used (negsuc n) = abandoned
log_text output level used (pos n) =
    if leb max_log_length (used + n)
    then writes_past_buffer
    else written output (used + n + 1) (not (ltb_ℤ level (pos 5)))

unfoldable pub log_named : ℤ → ℤ → ℕ → ℤ → Option ℕ → LogEffect
log_named output level stamp text none = reads_past_names
log_named output level stamp text (some n) = log_text output level (stamp + (n + 4)) text

-- `mtcp_lua_log`
unfoldable pub log : LogState → ℤ → ℕ → ℤ → LogEffect
log st level stamp text =
    if unknown_level level
    then skipped
    else if ltb_ℤ level st.log_level
    then skipped
    else log_named st.output level stamp text (name_length (pos_part level))
