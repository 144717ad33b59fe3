-- ===== src/Tests/Timer.antt =====
-- The timers: the event 2 waits for the time 20, and the event 3 is added.
use mtcp_lua.Base.{
  ◌-◌, ◌≤◌, ◌<◌, ◌≡◌, refl, arith, ℕ, ◌==◌, if◌then◌else◌, true, false, Option, some, List, [], ◌∷◌,
}
use mtcp_lua.RbTree.{Ptr, update}
use mtcp_lua.RbTree.Order.{insert_sorted}
use mtcp_lua.RbTree.Sequence.{occurs}
use mtcp_lua.Timer.{
  Timers, set_timedout, event_add_timer, event_del_timer, event_find_timer, event_expire_timers,
}
use mtcp_lua.Timer.Queue.{Queued, event_add_timer-Queued, event_find_timer-Queued}
use mtcp_lua.RbTree.Remove.{remove}
use mtcp_lua.Timer.Removal.{
  event_del_timer-Queued, event_add_timer-moved, event_add_timer-event_del_timer,
}
use mtcp_lua.Timer.Expiry.{Due, fire_all, event_expire_timers-Due}
use mtcp_lua.Timer.Rearming.{event_add_timer-Due}
use mtcp_lua.Tests.Data.{waiting, times, waiting-Queued}

event_add_timer-Queued_example :
    (w' : Timers) × (event_add_timer 1 4 25 3 5 waiting ≡ some w')
    × Queued 0 (times 30) 1 w' (insert_sorted (times 30) 3 30 (2 ∷ []))
    × (w'.tree.key ≡ update waiting.tree.key 3 30)
    × (w'.timer_set ≡ update waiting.timer_set 3 true)
    × (w'.timedout ≡ waiting.timedout)
event_add_timer-Queued_example =
    event_add_timer-Queued 0 (times 30) 1 waiting (2 ∷ []) 25 3 5 2 4 (omega arith)
      (waiting-Queued 30) refl (omega arith) refl refl (omega arith) (omega arith) (omega arith)

abbrev queue : List Ptr
queue = 2 ∷ []

event_find_timer-Queued_example :
    (event_find_timer 1 4 13 waiting ≡ some 7)
    × ((q : Ptr) → 0 < occurs q queue → 7 ≤ times 30 q - 13)
event_find_timer-Queued_example =
    event_find_timer-Queued 0 (times 30) 1 waiting (2 ∷ []) 13 2 4 (waiting-Queued 30) (omega arith)
      (omega arith) (omega arith) (omega arith) (omega arith)

event_del_timer-Queued_example :
    (w' : Timers) × (event_del_timer 1 4 2 waiting ≡ some w')
    × Queued 0 (times 30) 1 w' (remove 2 queue)
    × (occurs 2 (remove 2 queue) ≡ 0)
    × (w'.tree.key ≡ update waiting.tree.key 2 0)
    × (w'.timer_set ≡ update waiting.timer_set 2 false)
    × (w'.timedout ≡ waiting.timedout)
event_del_timer-Queued_example =
    event_del_timer-Queued 0 (times 30) 1 waiting (2 ∷ []) 2 2 4 (waiting-Queued 30) (omega arith)
      (omega arith) (omega arith)

abbrev later : Ptr → ℕ
later p = if p == 2 then 5025 else times 30 p

event_add_timer-moved_example :
    (w' : Timers) × (event_add_timer 1 4 25 2 5000 waiting ≡ some w')
    × Queued 0 later 1 w' (insert_sorted later 2 5025 (remove 2 queue))
    × (w'.tree.key ≡ update waiting.tree.key 2 5025)
    × (w'.timer_set ≡ waiting.timer_set)
    × (w'.timedout ≡ waiting.timedout)
event_add_timer-moved_example =
    event_add_timer-moved 0 (times 30) 1 waiting (2 ∷ []) later 25 2 5000 2 4 (omega arith)
      (waiting-Queued 30) refl (omega arith) refl (λ p ne. ground arith) refl (omega arith)
      (omega arith) (omega arith)

-- A handler that does nothing.
abbrev idle : Ptr → Timers → Option Timers
idle ev w = some w

abbrev same : Timers → Timers
same w = w

abbrev replace : Timers → Timers → Timers
replace ts w = ts

waiting-Due : Due 0 25 1 waiting (2 ∷ []) 1
waiting-Due = record {
  value = times 30;
  events = 2 ∷ [];
  queued = waiting-Queued 30;
  size = omega arith;
  head = refl;
}

-- The handler of each event sets its timer again, for the next second.
abbrev again : Ptr → Timers → Option Timers
again ev w = event_add_timer 1 6 25 ev 1000 w

event_expire_timers-Due_example :
    (w' : Timers) × (event_expire_timers same replace 1 6 25 again 2 (some waiting) ≡ some w')
    × (fire_all same replace 1 6 25 again queue (some waiting) ≡ some w')
    × Due 0 25 1 w' [] 2
event_expire_timers-Due_example =
    event_expire_timers-Due same replace 1 6 25 again 0 3 1 (omega arith) (omega arith)
      (omega arith) (omega arith) (λ ts w. refl)
      (λ ev w ds n d x few.
        event_add_timer-Due 0 25 3 1 6 ev 1000 w ds n (omega arith) (omega arith) (omega arith)
          (omega arith) d x few)
      queue 2 1 waiting waiting-Due (omega arith) (omega arith)

-- The event 3 has timed out, and the event 2 is due.
abbrev expired : Timers
expired = set_timedout 3 true waiting

abbrev expired_due : Due 0 25 1 expired (2 ∷ []) 1
expired_due = record {
  value = times 30;
  events = 2 ∷ [];
  queued = record {
    sorted = (waiting-Queued 30).sorted;
    value = (waiting-Queued 30).value;
    word = (waiting-Queued 30).word;
    window = (waiting-Queued 30).window;
  };
  size = omega arith;
  head = refl;
}

event_add_timer-Due_example :
    (w' : Timers) × (event_add_timer 1 4 25 3 5 expired ≡ some w') × Due 0 25 1 w' (2 ∷ []) 2
event_add_timer-Due_example =
    event_add_timer-Due 0 25 2 1 4 3 5 expired (2 ∷ []) 1 (omega arith) (omega arith) (omega arith)
      (omega arith) expired_due
      (record { node = omega arith; gone = refl; off = refl; timedout = refl }) (omega arith)

event_add_timer-event_del_timer_example :
    (w1 : Timers) × (w2 : Timers) × (event_add_timer 1 4 25 3 5 waiting ≡ some w1)
    × (event_del_timer 1 4 3 w1 ≡ some w2)
    × Queued 0 (times 30) 1 w2 (2 ∷ [])
    × (w2.tree.key ≡ update waiting.tree.key 3 0)
    × (w2.timer_set ≡ waiting.timer_set)
    × (w2.timedout ≡ waiting.timedout)
event_add_timer-event_del_timer_example =
    event_add_timer-event_del_timer 0 (times 30) 1 waiting (2 ∷ []) 25 3 5 2 4 (omega arith)
      (waiting-Queued 30) refl (omega arith) refl refl (omega arith) (omega arith) (omega arith)
