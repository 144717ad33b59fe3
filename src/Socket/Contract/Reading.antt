-- ===== src/Socket/Contract/Reading.antt =====
-- What the reading loop of the handler of `recv` gathers.
use mtcp_lua.Base.{
  ℕ, zero, suc, ◌+◌, ◌≤◌, ◌<◌, ◌≡◌, refl, sym, ap, ◌∙◌, arith, true, false, some, List, [], ◌∷◌,
  ◌++◌, length, length-append,
}
use mathlib.Core.List.{append_assoc, append-nil}
use mtcp_lua.Base.Int.{ℤ, pos_part}
use mtcp_lua.RbTree.{Ptr}
use mtcp_lua.Socket.{Call, mtcp_read, Answers, World, call, is_positive, take, gather}

module _ (answers : Answers) where
  -- The calls after `k` more readings of `fd`.
  abbrev pub reads : ℤ → ℕ → List Call → List Call
  reads fd zero cs = cs
  reads fd (suc k) cs = reads fd k (mtcp_read fd 1024 ∷ cs)

  -- The first `k` of those readings succeed, and the next one does not.
  abbrev pub EndsAfter : ℤ → ℕ → List Call → Type 0
  EndsAfter fd zero cs = is_positive (answers.result (mtcp_read fd 1024 ∷ cs)) ≡ false
  EndsAfter fd (suc k) cs =
      (is_positive (answers.result (mtcp_read fd 1024 ∷ cs)) ≡ true)
      × EndsAfter fd k (mtcp_read fd 1024 ∷ cs)

  -- The bytes of the next `k` readings.
  abbrev pub contents : ℤ → ℕ → List Call → List ℕ
  contents fd zero cs = []
  contents fd (suc k) cs =
      let cs' = mtcp_read fd 1024 ∷ cs in
      take (pos_part (answers.result cs')) (answers.buffer cs') ++ contents fd k cs'

  -- A reading never answers more bytes than it puts into the buffer.
  abbrev pub FillsBuffer : ℤ → Type 0
  FillsBuffer fd =
      (cs : List Call)
      → pos_part (answers.result (mtcp_read fd 1024 ∷ cs))
        ≤ length (answers.buffer (mtcp_read fd 1024 ∷ cs))

  length-take : (n : ℕ) (xs : List ℕ) → n ≤ length xs → length (take n xs) ≡ n
  length-take zero xs h = refl
  length-take (suc n) [] h = absurd (omega (arith, h))
  length-take (suc n) (x ∷ xs) h = omega (arith, length-take n xs (omega (arith, h)))

  module _ (s fuel : ℕ) (sctx : Ptr) (fd : ℤ) where
    gather-from :
        (k bound : ℕ) (content : List ℕ) (w : World)
        → (w.sockets sctx).fd ≡ fd
        → FillsBuffer fd
        → EndsAfter fd k w.calls
        → k < bound
        → gather answers s fuel bound sctx content (length content) w
          ≡ some (record {
            content = content ++ contents fd k w.calls;
            sum = length (content ++ contents fd k w.calls);
            last = answers.result (mtcp_read fd 1024 ∷ reads fd k w.calls);
            world = record w { calls = mtcp_read fd 1024 ∷ reads fd k w.calls };
          })
    unfolding gather
    gather-from k zero content w e full ends h = absurd (omega (arith, h))
    gather-from zero (suc bound) content w e full ends h = rw (e, ends, append-nil content) refl
    gather-from (suc k) (suc bound) content w e full ends h =
        let cs = mtcp_read fd 1024 ∷ w.calls in
        let n = pos_part (answers.result cs) in
        let chunk = take n (answers.buffer cs) in
        let len : length (content ++ chunk) ≡ length content + n =
          length-append content chunk
          ∙ ap (λ (x : ℕ). length content + x) (length-take n (answers.buffer cs) (full w.calls)) in
        rw
          (
            e,
            ends.0,
            sym len,
            gather-from k bound (content ++ chunk) (call (mtcp_read fd 1024) w) e full ends.1
                (omega (arith, h)),
            append_assoc content chunk (contents fd k cs),
          )
          refl

    -- When `k` readings of the socket succeed and the next one does not, the loop ends within
    -- `k + 1` rounds. It has gathered the bytes of the `k` readings in their order, `sum` is their
    -- number, `n` is the last answer, and the last call is the reading that gave it.
    pub gather-contents :
        (k bound : ℕ) (w : World)
        → (w.sockets sctx).fd ≡ fd
        → FillsBuffer fd
        → EndsAfter fd k w.calls
        → k < bound
        → gather answers s fuel bound sctx [] 0 w
          ≡ some (record {
            content = contents fd k w.calls;
            sum = length (contents fd k w.calls);
            last = answers.result (mtcp_read fd 1024 ∷ reads fd k w.calls);
            world = record w { calls = mtcp_read fd 1024 ∷ reads fd k w.calls };
          })
    gather-contents k bound w e full ends h = gather-from k bound [] w e full ends h
