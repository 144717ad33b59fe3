-- ===== src/Timer.antt =====
-- event_timer.c and event_timer.h: the timers of one thread's events.
--
-- An event is named by the address of its `timer` node, so its other fields are functions of that
-- address. `now` stands for the milliseconds that `gettimeofday` gives, and `s` for the sentinel.
-- The loops of the tree and of `event_expire_timers` run on `fuel`.
pub mod Queue
pub mod Absence
pub mod Removal
pub mod Expiry
pub mod Rearming
use mtcp_lua.Base.{
  ℕ, zero, suc, ◌+◌, ◌-◌, ◌%◌, ◌^◌, Bool, true, false, Option, none, some, ◌==◌, if◌then◌else◌, ltb,
  leb,
}
use mtcp_lua.Base.Int.{ℤ, pos, negsuc, pos_part, neg_part, ltb_ℤ, leb_ℤ, signed64, signed32, sub64}
use mtcp_lua.RbTree.{
  Ptr, Store, insert_timer_value, update, set_key, rbtree_init, rbtree_min, rbtree_insert,
  rbtree_delete,
}

-- The tree, and the fields of `event_t` that the timers use.
pub record Timers : Type 0 where
  pub tree : Store
  pub timer_set : Ptr → Bool
  pub timedout : Ptr → Bool

abbrev pub set_timer_set : Ptr → Bool → Timers → Timers
set_timer_set ev b w = record w { timer_set = update w.timer_set ev b }

abbrev pub set_timedout : Ptr → Bool → Timers → Timers
set_timedout ev b w = record w { timedout = update w.timedout ev b }

-- The low 32 bits of a 64-bit difference, as the `int` that `abs` takes, made positive. `INT_MIN`
-- stays as it is.
abbrev pub abs_int : ℕ → ℤ
abs_int diff =
    let i = signed32 (diff % 2 ^ 32) in
    if ltb_ℤ i (pos 0) then (if neg_part i == 2 ^ 31 then i else pos (neg_part i)) else i

abbrev pub timer_lazy_delay : ℕ
timer_lazy_delay = 300

abbrev pub timer_infinite : ℕ
timer_infinite = 2 ^ 64 - 1

unfoldable pub event_timer_init : Ptr → Timers → Timers
event_timer_init s w = record w { tree = rbtree_init s w.tree }

unfoldable pub find_answer : ℕ → Store → Option Ptr → Option ℕ
find_answer now t none = none
find_answer now t (some node) =
    let timer = signed64 (sub64 (t.key node) now) in
    some (if ltb_ℤ (pos 0) timer then pos_part timer else 0)

-- `event_find_timer`: how long until the first timer is due.
unfoldable pub event_find_timer : Ptr → ℕ → ℕ → Timers → Option ℕ
event_find_timer s fuel now w =
    if w.tree.root == s
    then some timer_infinite
    else find_answer now w.tree (rbtree_min s fuel w.tree w.tree.root)

unfoldable pub with_tree : Ptr → Bool → Timers → Option Store → Option Timers
with_tree ev b w none = none
with_tree ev b w (some t) = some (set_timer_set ev b (record w { tree = t }))

-- `event_del_timer`
unfoldable pub event_del_timer : Ptr → ℕ → Ptr → Timers → Option Timers
event_del_timer s fuel ev w = with_tree ev false w (rbtree_delete s fuel ev w.tree)

-- The insertion at the end of `event_add_timer`.
unfoldable pub insert_timer : Ptr → ℕ → ℕ → Ptr → Option Timers → Option Timers
insert_timer s fuel key ev none = none
insert_timer s fuel key ev (some w) =
    with_tree ev true w (rbtree_insert insert_timer_value s fuel ev (set_key ev key w.tree))

-- `event_add_timer`
unfoldable pub event_add_timer : Ptr → ℕ → ℕ → Ptr → ℕ → Timers → Option Timers
event_add_timer s fuel now ev timer w =
    let key = (now + timer) % 2 ^ 64 in
    if w.timer_set ev
    then (if ltb_ℤ (abs_int (sub64 key (w.tree.key ev))) (pos timer_lazy_delay)
        then some w
        else insert_timer s fuel key ev (event_del_timer s fuel ev w))
    else insert_timer s fuel key ev (some w)

abbrev pub is_due : ℕ → ℕ → Bool
is_due now key = leb_ℤ (signed64 (sub64 key now)) (pos 0)

-- A handler may change the whole state `W` of the program, of which the timers are a part. What it
-- does is the program's own code, or a Lua script.
module _ {W : Type 0} (timers_of : W → Timers) (put_timers : Timers → W → W) (s fuel now : ℕ)
    (handler : Ptr → W → Option W) where
  -- A due timer's event: its timer is deleted, and the handler runs.
  unfoldable pub fire : Ptr → W → Option Timers → Option W
  fire ev w none = none
  fire ev w (some ts) = handler ev (put_timers (set_timedout ev true ts) w)

  unfoldable pub expire_from : (Option W → Option W) → W → Option Ptr → Option W
  expire_from rest w none = none
  expire_from rest w (some node) =
      if is_due now ((timers_of w).tree.key node)
      then rest (fire node w (event_del_timer s fuel node (timers_of w)))
      else some w

  -- `event_expire_timers`, with a bound on the rounds.
  unfoldable pub event_expire_timers : ℕ → Option W → Option W
  event_expire_timers k none = none
  event_expire_timers zero (some w) = none
  event_expire_timers (suc k) (some w) =
      let t = (timers_of w).tree in
      let after = expire_from (event_expire_timers k) w (rbtree_min s fuel t t.root) in
      if t.root == s then some w else after
