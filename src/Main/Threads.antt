-- ===== src/Main/Threads.antt =====
-- `mtcp_lua_new_thread`, `mtcp_lua_thread_spawn`, `mtcp_lua_run_thread` and `timer_handler` of main.c.
-- Lua's state is a parameter with the operations that the code uses, and what a coroutine does
-- until it yields or ends is the parameter `resume`.
pub mod Isolation
use mtcp_lua.Base.{
  ℕ, suc, ◌≡◌, ◌≢◌, Bool, true, false, Option, none, some, List, [], ◌∷◌, ◌++◌, ◌==◌, if◌then◌else◌,
  not, ◌&&◌,
}
use mtcp_lua.Base.Int.{ℤ, pos, negsuc}
use mtcp_lua.RbTree.{Ptr, null, Store, update}
use mtcp_lua.Timer.{set_timer_set, set_timedout}
use mtcp_lua.Socket.{Outcome, raises, returns, faults, no_context, boolean, no_handler, World}

-- The operations on Lua's state. `get_ctx` and `set_ctx` are `mtcp_lua_thread_get_ctx` and
-- `mtcp_lua_thread_set_ctx`, which read and write a global variable; `new_state l co` makes the
-- coroutine `co`, whose global variables are a new table that falls back to that of `l`; `has_text l`
-- says that the value on top of the stack of `l` is a string or a number; `xmove l co` is
-- `lua_xmove(l, co, 1)`, which moves the value on top of the stack of `l` to that of `co`; and `top` is
-- the value on top. The laws: a global that was set is read; one that was set in a new table is seen by
-- its own coroutine only; setting a global and making a coroutine leave the other stacks as they
-- were; and what is moved is what was on top.
pub record LuaApi (G : Type 0) : Type 0 where
  pub get_ctx : Ptr → G → Ptr
  pub set_ctx : Ptr → Ptr → G → G
  pub new_state : Ptr → Ptr → G → G
  pub has_text : Ptr → G → Bool
  pub xmove : Ptr → Ptr → G → G
  pub top : Ptr → G → ℕ
  pub get_set : (l v : Ptr) (g : G) → get_ctx l (set_ctx l v g) ≡ v
  pub get_other :
      (l co v k : Ptr) (g : G)
      → k ≢ co
      → get_ctx k (set_ctx co v (xmove l co (new_state l co g))) ≡ get_ctx k g
  pub top_set : (k co v : Ptr) (g : G) → top k (set_ctx co v g) ≡ top k g
  pub top_xmove : (l co : Ptr) (g : G) → l ≢ co → top co (xmove l co g) ≡ top l g
  pub top_new : (k l co : Ptr) (g : G) → k ≢ co → top k (new_state l co g) ≡ top k g

-- What `lua_resume` answers.
pub data Status : Type 0 where
  lua_yield : Status
  lua_ok : Status
  lua_errrun : Status
  lua_errsyntax : Status
  lua_errmem : Status
  lua_errerr : Status
  other_status : ℤ → Status

pub data Report : Type 0 where
  runtime_error : Report
  syntax_error : Report
  memory_error : Report
  handler_error : Report
  unknown_error : Report
  execution_failed : Status → Report

-- What `mtcp_lua_run_thread` prints, the last first.
unfoldable pub reports : Status → List Report
reports lua_yield = []
reports lua_ok = []
reports lua_errrun = execution_failed lua_errrun ∷ runtime_error ∷ []
reports lua_errsyntax = execution_failed lua_errsyntax ∷ syntax_error ∷ []
reports lua_errmem = execution_failed lua_errmem ∷ memory_error ∷ []
reports lua_errerr = execution_failed lua_errerr ∷ handler_error ∷ []
reports (other_status n) = execution_failed (other_status n) ∷ unknown_error ∷ []

-- The test of `ret != 0`, where a yield has returned.
unfoldable pub fails : Status → Bool
fails lua_yield = false
fails lua_ok = false
fails lua_errrun = true
fails lua_errsyntax = true
fails lua_errmem = true
fails lua_errerr = true
fails (other_status n) = true

-- `struct mtcp_lua_thread_ctx_s`, but for the event.
pub record ThreadCtx : Type 0 where
  pub main : Ptr
  pub vm : Ptr
  pub co_ref : ℤ

pub record Threads (G : Type 0) : Type 0 where
  pub world : World
  pub lua : G
  pub contexts : Ptr → ThreadCtx
  pub printed : List Report

-- `LUA_NOREF`, which is -2.
abbrev pub is_noref : ℤ → Bool
is_noref (pos n) = false
is_noref (negsuc n) = n == 1

-- The tree's node in a context that is filled with zeros.
abbrev pub zero_node : Ptr → Store → Store
zero_node p t = record t {
  key = update t.key p 0;
  lefts = update t.lefts p null;
  rights = update t.rights p null;
  parent = update t.parent p null;
  red = update t.red p false;
}

abbrev pub zero_event : Ptr → World → World
zero_event ctx w = record w {
  timers = record (set_timedout ctx false (set_timer_set ctx false w.timers)) {
    tree = zero_node ctx w.timers.tree;
  };
  ev_data = update w.ev_data ctx ctx;
  ev_handler = update w.ev_handler ctx no_handler;
}

module _ {G : Type 0} (api : LuaApi G)
    (resume : Ptr → ℕ → Threads G → Option (Status × Threads G)) where
  -- What follows `lua_resume`. Without a text on the stack `luaL_checkstring` raises an error in a
  -- coroutine that no call protects, and the function does not return.
  unfoldable pub report : Ptr → Option (Status × Threads G) → Option (Threads G)
  report vm none = none
  report vm (some r) =
      if fails r.0 && not (api.has_text vm (r.1).lua)
      then none
      else some (record (r.1) { printed = reports r.0 ++ (r.1).printed })

  -- `mtcp_lua_run_thread`
  unfoldable pub run_thread : Ptr → ℕ → Threads G → Option (Threads G)
  run_thread ctx narg t = report ((t.contexts ctx).vm) (resume ((t.contexts ctx).vm) narg t)

  -- `timer_handler`
  unfoldable pub handle_timer : Ptr → Threads G → Option (Threads G)
  handle_timer ev t = run_thread (t.world.ev_data ev) 0 t

  -- `mtcp_lua_new_thread`, where `lua_newthread` answers `co` and `luaL_ref` answers `ref`.
  unfoldable pub new_thread : Ptr → Ptr → ℤ → Threads G → Ptr × Threads G
  new_thread l co ref t =
      (if is_noref ref then null else co, record t { lua = api.new_state l co t.lua })

  -- `lua_xmove(l, co, 1)`
  abbrev pub move_top : Ptr → Ptr → Threads G → Threads G
  move_top l co t = record t { lua = api.xmove l co t.lua }

  -- The context of the new thread, at the address `new` that `malloc` answers.
  unfoldable pub set_up : Ptr → Ptr → Ptr → ℤ → Threads G → Threads G
  set_up octx new co ref t = record t {
    world = zero_event new t.world;
    contexts =
        update t.contexts new (record { main = (t.contexts octx).main; vm = co; co_ref = ref });
    lua = api.set_ctx co new t.lua;
  }

  unfoldable pub answer_true : Option (Threads G) → Option (Outcome × Threads G)
  answer_true none = none
  answer_true (some t) = some (returns (boolean true ∷ []), t)

  -- `mtcp_lua_thread_spawn`, called by the Lua state `l`.
  unfoldable pub spawn : Ptr → Ptr → Ptr → ℤ → Threads G → Option (Outcome × Threads G)
  spawn l new co ref t =
      let octx = api.get_ctx l t.lua in
      let made = new_thread l co ref t in
      let started =
        answer_true (run_thread new 0 (set_up octx new made.0 ref (move_top l made.0 made.1))) in
      if octx == null
      then some (raises no_context, t)
      else if made.0 == null
      then some (faults, made.1)
      else started
