-- ===== src/Tests/Data.antt =====
-- Small memories, queues and worlds, with the sentinel 1.
use mtcp_lua.Base.{ℕ, ◌*◌, ◌<◌, ◌≡◌, refl, arith, false, [], ◌∷◌, ◌==◌, if◌then◌else◌}
use mtcp_lua.RbTree.{Ptr, Store}
use mtcp_lua.RbTree.Shape.{leaf, node}
use mtcp_lua.RbTree.Focus.{IsTree}
use mtcp_lua.RbTree.Sequence.{occurs, Represents}
use mtcp_lua.Timer.{Timers}
use mtcp_lua.Timer.Queue.{Queued}

-- A tree of one black node, 2.
abbrev pub single : Store
single = record {
  root = 2;
  key = λ p. p * 10;
  lefts = λ p. 1;
  rights = λ p. 1;
  parent = λ p. 0;
  red = λ p. false;
}

pub single-IsTree : IsTree 1 single (node false 2 leaf leaf)
single-IsTree = (
  0,
  record {
    holds = (omega arith, refl, refl, refl, refl, tt, tt);
    around = refl;
    once = λ p. ground arith;
    black = refl;
  },
)

pub single-Represents : (f : Ptr → ℕ) → Represents f 1 single (2 ∷ [])
single-Represents f = record {
  tree = node false 2 leaf leaf;
  black_height = 1;
  is_tree = single-IsTree;
  balanced = (tt, tt);
  black = refl;
  nodes = refl;
  sorted = (tt, tt);
}

-- A black root, 3, with one black child, 4, on the right: one black node is missing on the left.
abbrev pub lopsided : Store
lopsided = record {
  root = 3;
  key = λ p. p * 10;
  lefts = λ p. 1;
  rights = λ p. if p == 3 then 4 else 1;
  parent = λ p. if p == 3 then 0 else 3;
  red = λ p. false;
}

-- The event 2 waits for the time 20; the event 3 is to wait for the time `v`.
abbrev pub waiting : Timers
waiting = record { tree = single; timer_set = λ p. p == 2; timedout = λ p. false }

abbrev pub times : ℕ → Ptr → ℕ
times v p = if p == 3 then v else p * 10

only_two : (p : Ptr) → 0 < occurs p (2 ∷ []) → p ≡ 2
only_two p i = ground arith

pub waiting-Queued : (v : ℕ) → Queued 0 (times v) 1 waiting (2 ∷ [])
waiting-Queued v = record {
  sorted = single-Represents (times v);
  value = λ p i. rw (only_two p i) refl;
  word = λ p i. rw (only_two p i) (omega arith);
  window = λ p i. rw (only_two p i) (omega arith);
}
