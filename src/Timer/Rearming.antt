-- ===== src/Timer/Rearming.antt =====
-- A handler of a due event that sets its own timer again, for a later time.
use mtcp_lua.Base.{
  ℕ, ◌+◌, ◌*◌, ◌%◌, ◌^◌, ◌≤◌, ◌<◌, ◌≡◌, ◌≢◌, refl, sym, ap, ◌∙◌, arith, false, some, List, [], ◌∷◌,
  leb, ltb, if◌then◌else◌, ==_of_eq, ==_of_ne, Bool-cases, inl, inr,
}
use mtcp_lua.Base.Int.{sub64}
use mtcp_lua.RbTree.{Ptr, update}
use mtcp_lua.RbTree.Order.{insert_sorted}
use mtcp_lua.RbTree.Sequence.{occurs}
use mtcp_lua.Timer.{Timers, event_add_timer}
use mtcp_lua.Timer.Queue.{event_add_timer-Queued}
use mtcp_lua.Timer.Absence.{Queued-agree, length-insert_sorted}
use mtcp_lua.Timer.Expiry.{due_of, Due, Expired}

later : (a b : ℕ) → a < b → leb b a ≡ false
later a b h = ground arith

due_of-insert_sorted :
    (g : Ptr → ℕ) (n : ℕ) (ev : Ptr) (ps : List Ptr)
    → n < g ev
    → due_of g n (insert_sorted g ev (g ev) ps) ≡ due_of g n ps
unfolding insert_sorted
due_of-insert_sorted g n ev [] h = rw (later n (g ev) h) refl
due_of-insert_sorted g n ev (q ∷ ps) h = elim (Bool-cases (ltb (g ev) (g q))) [
  | inl e ↦
      let far : leb (g q) n ≡ false = later n (g q) (ground (arith, e, h)) in
      rw (e, later n (g ev) h, far) refl
  | inr e ↦ rw e (
      ap (λ (ds : List Ptr). if leb (g q) n then q ∷ ds else []) (due_of-insert_sorted g n ev ps h))
]

due_of-agree :
    (f g : Ptr → ℕ) (n : ℕ) (ps : List Ptr)
    → ((p : Ptr) → 0 < occurs p ps → f p ≡ g p)
    → due_of g n ps ≡ due_of f n ps
due_of-agree f g n [] e = refl
due_of-agree f g n (q ∷ ps) e =
    ap (λ v. if leb v n then q ∷ due_of g n ps else []) (sym (e q (ground arith)))
    ∙ ap (λ (ds : List Ptr). if leb (f q) n then q ∷ ds else [])
        (due_of-agree f g n ps (λ p i. e p (omega (arith, i))))

-- In a queue of at most `n` events, `event_add_timer` in the handler of the event `ev`, for a later
-- time, leaves the same events due and at most one event more.
pub event_add_timer-Due :
    (base now m s fuel ev timer : ℕ) (w : Timers) (ds : List Ptr) (n : ℕ)
    → base < 2 ^ 64
    → 2 * m ≤ fuel
    → sub64 now base < sub64 ((now + timer) % 2 ^ 64) base
    → sub64 ((now + timer) % 2 ^ 64) base < 2 ^ 63
    → (d : Due base now s w ds n) → Expired s ev w d.events
    → n + 1 + 1 < 2 ^ m
    → (w' : Timers) × (event_add_timer s fuel now ev timer w ≡ some w')
      × Due base now s w' ds (n + 1)
event_add_timer-Due base now m s fuel ev timer w ds n hb enough after win d x few =
    let v : ℕ = sub64 ((now + timer) % 2 ^ 64) base in
    let g : Ptr → ℕ = update d.value ev v in
    let here : g ev ≡ v = rw (==_of_eq ev ev refl) refl in
    let agree : (p : Ptr) → 0 < occurs p d.events → d.value p ≡ g p =
      λ p i. same p (λ e. omega (arith, i, x.gone, ap (λ (y : Ptr). occurs y d.events) e)) in
    let (w', run, q, keys, sets, outs) =
      event_add_timer-Queued base g s w d.events now ev timer m fuel hb
        (Queued-agree base d.value g s w d.events agree d.queued) x.off x.node x.gone here
        (omega (arith, here, win)) (omega (arith, d.size, few)) enough in
    (
      w',
      run,
      record {
        value = g;
        events = insert_sorted g ev (g ev) d.events;
        queued = q;
        size = omega (arith, length-insert_sorted g ev (g ev) d.events, d.size);
        head =
            due_of-insert_sorted g (sub64 now base) ev d.events (omega (arith, here, after))
            ∙ due_of-agree d.value g (sub64 now base) d.events agree
            ∙ d.head;
      },
    )
  where
    same :
        (p : Ptr) → p ≢ ev → d.value p ≡ update d.value ev (sub64 ((now + timer) % 2 ^ 64) base) p
    same p ne = rw (==_of_ne p ev ne) refl
