-- ===== src/Main/Rounds.antt =====
-- How often a thread waits for events.
use mtcp_lua.Base.{
  ℕ, zero, suc, ◌+◌, ◌≡◌, refl, sym, ap, ◌∙◌, arith, Option, none, some, List, [], ◌∷◌, ==_of_ne,
  ==_of_eq,
}
use mtcp_lua.RbTree.{Ptr}
use mtcp_lua.Socket.{Answers, World}
use mtcp_lua.Main.{dispatch, expire, thread_loop}

module _ (answers : Answers) (s fuel : ℕ) (reported : ℕ → List Ptr)
    (run : Ptr → World → Option World) where
  -- `n` rounds: the events of the waits from the one after `i` on, and each time the timers.
  abbrev pub rounds : ℕ → ℕ → Option World → Option World
  rounds zero i o = o
  rounds (suc n) i o = rounds n (suc i) (
      expire answers s fuel reported run
        (dispatch answers s fuel reported run (reported (suc i)) o))

  abbrev pub exit_with : ℕ → Option World → Option (ℕ × World)
  exit_with code none = none
  exit_with code (some w) = some (code, w)

  stopped :
      (evs : List Ptr)
      → expire answers s fuel reported run (dispatch answers s fuel reported run evs none) ≡ none
  unfolding expire dispatch
  stopped [] = refl
  stopped (ev ∷ evs) = refl

  rounds-none : (n i : ℕ) → rounds n i none ≡ none
  rounds-none zero i = refl
  rounds-none (suc n) i = ap (rounds n (suc i)) (stopped (reported (suc i))) ∙ rounds-none n (suc i)

  loop_from :
      (r count : ℕ) (o : Option World)
      → count + suc r ≡ 10
      → thread_loop answers s fuel reported run (suc r) count o ≡ exit_with 5 (rounds r count o)
  unfolding thread_loop
  loop_from r count none h = ap (exit_with 5) (sym (rounds-none r count))
  loop_from zero count (some w) h = rw (==_of_eq (suc count) 10 (omega (arith, h))) refl
  loop_from (suc r) count (some w) h = rw (==_of_ne (suc count) 10 (λ e. omega (arith, h, e))) (
      loop_from r (suc count)
        (expire answers s fuel reported run
          (dispatch answers s fuel reported run (reported (suc count)) (some w)))
        (omega (arith, h)))

  -- A thread waits nine times, handles the events and the due timers after each wait, and then ends
  -- the whole process with the code 5. Ten rounds of its loop are enough.
  pub thread_loop-exits :
      (w : World)
      → thread_loop answers s fuel reported run 10 0 (some w) ≡ exit_with 5 (rounds 9 0 (some w))
  thread_loop-exits w = loop_from 9 0 (some w) refl
